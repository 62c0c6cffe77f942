-- ===== src/Suppliers/Isolation/Boundary.antt =====
-- arcanium/api/src/suppliers/isolation.js: what a verified report says of the tenants.
use mathlib.Core.Path.{subst}
use arcanium.Prelude.{
  ℕ, ◌≤◌, String, ◌≡◌, refl, sym, ap, ◌∙◌, ◌≢◌, ◌↔◌, inl, inr, Bool, true, ◌&&◌, Option, none, some,
  List, [], ◌∷◌, ◌++◌, arith, ◌==◌, eq_iff, ltb, Bool-cases, Option-cases, length, all, AllOf,
}
use arcanium.Suppliers.Isolation.{
  Tenant, Answer, answer, status, Vault, Direction, mint_tenant_token, is_403, is_denied, mint_all,
  add_token, token_of, cross_directions, all_directions, keeps_boundary, run_check,
}

abbrev pub HasDistinctNames : List Tenant → Type 0
HasDistinctNames [] = Unit
HasDistinctNames (t ∷ tenants) = AllOf (λ u. u.name ≢ t.name) tenants × HasDistinctNames tenants

AllOf-combine {ℓ} :
    {A : Type ℓ} (P Q R : A → Type 0) (xs : List A)
    → ((x : A) → P x → Q x → R x)
    → AllOf P xs
    → AllOf Q xs
    → AllOf R xs
AllOf-combine P Q R [] f h k = tt
AllOf-combine P Q R (x ∷ xs) f (h, hs) (k, ks) = (f x h k, AllOf-combine P Q R xs f hs ks)

all-append :
    (p : Direction → Bool) (xs ys : List Direction) → all p (xs ++ ys) ≡ (all p xs && all p ys)
all-append p [] ys = refl
all-append p (x ∷ xs) ys = ground (arith, all-append p xs ys)

both_iff : (a b : Bool) → (a && b ≡ true) ↔ ((a ≡ true) × (b ≡ true))
both_iff a b = ground arith

is_403-status : (a : Answer Unit) → (is_403 a ≡ true) ↔ (a ≡ status 403)
is_403-status (answer u) = (λ e. absurd (cc), λ e. absurd (cc))
is_403-status (status code) = (λ e. ap status (ground (arith, e)), λ e. ap is_403 e)

module _ {T : Type 0} (vault : Vault T) where
  added :
      (name : String) (m : Option (Option T)) (rest : Option (List (String × Option T)))
      (tokens : List (String × Option T))
      → add_token vault name m rest ≡ some tokens
      → (token : Option T) × (others : List (String × Option T)) × (m ≡ some token)
        × (rest ≡ some others)
        × (tokens ≡ others ++ (name, token) ∷ [])
  added name (some token) (some others) tokens e = (token, others, refl, refl, cc)
  added name none rest tokens e = absurd (cc)
  added name (some token) none tokens e = absurd (cc)

  AllOf-snoc :
      (name : String) (xs : List (String × Option T)) (x : String × Option T)
      → AllOf (λ p. p.0 ≢ name) xs
      → x.0 ≢ name
      → AllOf (λ p. p.0 ≢ name) (xs ++ x ∷ [])
  AllOf-snoc name [] x h e = (e, tt)
  AllOf-snoc name (y ∷ xs) x (h, hs) e = (h, AllOf-snoc name xs x hs e)

  -- The names of the minted tokens are the tenants'.
  mint_all-names :
      (name : String) (tenants : List Tenant) (tokens : List (String × Option T))
      → AllOf (λ u. u.name ≢ name) tenants
      → mint_all vault tenants ≡ some tokens
      → AllOf (λ p. p.0 ≢ name) tokens
  unfolding mint_all
  mint_all-names name [] [] h e = tt
  mint_all-names name [] (p ∷ tokens) h e = absurd (cc)
  mint_all-names name (t ∷ tenants) tokens (h, hs) e =
      let (token, others, _, rest, q) =
        added t.name (mint_tenant_token vault t.namespace) (mint_all vault tenants) tokens e in
      subst (AllOf (λ p. p.0 ≢ name)) (sym q)
        (AllOf-snoc name others (t.name, token) (mint_all-names name tenants others hs rest) h)

  token_of-other :
      (tokens : List (String × Option T)) (name n : String) (token : Option T)
      → name ≢ n
      → token_of vault (tokens ++ (n, token) ∷ []) name ≡ token_of vault tokens name
  unfolding token_of
  token_of-other [] name n token h = ground (arith, eq_iff n name)
  token_of-other ((m, t) ∷ tokens) name n token h =
      ground (arith, token_of-other tokens name n token h)

  token_of-last :
      (tokens : List (String × Option T)) (name : String) (token : Option T)
      → AllOf (λ p. p.0 ≢ name) tokens
      → token_of vault (tokens ++ (name, token) ∷ []) name ≡ token
  unfolding token_of
  token_of-last [] name token h = ground (arith, eq_iff name name)
  token_of-last ((m, t) ∷ tokens) name token (h, hs) =
      ground (arith, eq_iff m name, token_of-last tokens name token hs)

  abbrev pub IsMinted : List (String × Option T) → Tenant → Type 0
  IsMinted tokens t = mint_tenant_token vault t.namespace ≡ some (token_of vault tokens t.name)

  mint_all-IsMinted :
      (tenants : List Tenant) (tokens : List (String × Option T))
      → HasDistinctNames tenants
      → mint_all vault tenants ≡ some tokens
      → AllOf (IsMinted tokens) tenants
  unfolding mint_all
  mint_all-IsMinted [] tokens d e = tt
  mint_all-IsMinted (t ∷ tenants) tokens (d, ds) e =
      let (token, others, made, rest, q) =
        added t.name (mint_tenant_token vault t.namespace) (mint_all vault tenants) tokens e in
      let names = mint_all-names t.name tenants others d rest in
      subst (λ x. AllOf (IsMinted x) (t ∷ tenants)) (sym q)
        (
          made ∙ ap some (sym (token_of-last others t.name token names)),
          AllOf-combine (λ u. u.name ≢ t.name) (IsMinted others)
              (IsMinted (others ++ (t.name, token) ∷ [])) tenants
              (λ u other m. m ∙ ap some (sym (token_of-other others u.name t.name token other))) d
              (mint_all-IsMinted tenants others ds rest),
        )

  -- One tenant's token is refused by Vault at another's namespace.
  abbrev pub IsRefused : Option T → Tenant → Tenant → Type 0
  IsRefused token a b = a.name ≢ b.name → vault.list_keys token b.namespace ≡ status 403

  cross_directions-all :
      (token : Option T) (a : Tenant) (tenants : List Tenant)
      → (all keeps_boundary (cross_directions vault token a tenants) ≡ true)
        ↔ AllOf (IsRefused token a) tenants
  unfolding cross_directions is_denied
  cross_directions-all token a [] = (λ e. tt, λ e. refl)
  cross_directions-all token a (b ∷ tenants) =
      let (f, g) = cross_directions-all token a tenants in
      let same = eq_iff a.name b.name in
      let refused = is_403-status (vault.list_keys token b.namespace) in
      elim (Bool-cases (a.name == b.name)) [
        | inl e ↦ rw e (λ h. (λ n. absurd (n (same.0 e)), f h), λ h. g h.1)
        | inr e ↦ rw e (
            let (out, into) =
              both_iff (is_403 (vault.list_keys token b.namespace))
                (all keeps_boundary (cross_directions vault token a tenants)) in
            (
              λ h. (λ n. refused.0 (out h).0, f (out h).1),
              λ h. into (refused.1 (h.0 (λ q. absurd (ground (arith, e, same, q)))), g h.1),
            ))
      ]

  all_directions-all :
      (tokens : List (String × Option T)) (every tenants : List Tenant)
      → (all keeps_boundary (all_directions vault tokens every tenants) ≡ true)
        ↔ AllOf (λ a. AllOf (IsRefused (token_of vault tokens a.name) a) every) tenants
  unfolding all_directions
  all_directions-all tokens every [] = (λ e. tt, λ e. refl)
  all_directions-all tokens every (a ∷ tenants) =
      let token = token_of vault tokens a.name in
      let (f, g) = all_directions-all tokens every tenants in
      let (j, k) = cross_directions-all token a every in
      let split =
        all-append keeps_boundary (cross_directions vault token a every)
          (all_directions vault tokens every tenants) in
      let (out, into) =
        both_iff (all keeps_boundary (cross_directions vault token a every))
          (all keeps_boundary (all_directions vault tokens every tenants)) in
      (
        λ h. (j (out (sym split ∙ h)).0, f (out (sym split ∙ h)).1),
        λ h. split ∙ into (k h.0, g h.1),
      )

  abbrev pub HasToken : Tenant → Type 0
  HasToken t = (token : Option T) × (mint_tenant_token vault t.namespace ≡ some token)

  mint_all-some :
      (tenants : List Tenant)
      → AllOf HasToken tenants
      → (tokens : List (String × Option T)) × (mint_all vault tenants ≡ some tokens)
  unfolding mint_all
  mint_all-some [] h = ([], refl)
  mint_all-some (t ∷ tenants) ((token, e), hs) =
      let (tokens, q) = mint_all-some tenants hs in (tokens ++ (t.name, token) ∷ [], rw (e, q) refl)

  -- A tenant's minted token is refused at every other's namespace.
  abbrev pub IsBounded : List Tenant → Tenant → Type 0
  IsBounded tenants a =
      (token : Option T) × (mint_tenant_token vault a.namespace ≡ some token)
      × AllOf (IsRefused token a) tenants

  none_not_some : (tokens : List (String × Option T)) → none ≡ some tokens → ⊥
  none_not_some tokens e = absurd (cc)

  same_token : (a b : Option T) → some a ≡ some b → a ≡ b
  same_token a b e = cc

  -- Among tenants of distinct names, a run of the check is verified exactly if there are two of them at
  -- least, a token was minted for each, and Vault refuses, with a 403, every tenant's token at every
  -- other tenant's namespace.
  pub verified_exact :
      (now : ℕ) (tenants : List Tenant)
      → HasDistinctNames tenants
      → ((run_check vault now tenants).verified ≡ true)
        ↔ ((2 ≤ length tenants) × AllOf (IsBounded tenants) tenants)
  unfolding run_check
  verified_exact now tenants d = elim (Bool-cases (ltb (length tenants) 2)) [
    | inl few ↦ rw few (λ e. absurd (cc), λ h. absurd (ground (arith, few, h.0)))
    | inr enough ↦ rw enough (elim (Option-cases (mint_all vault tenants)) [
      | inl none_ ↦ rw none_ (
        λ e. absurd (cc),
        λ h.
            let (tokens, q) = mint_all-some tenants (
              AllOf-combine (IsBounded tenants) (IsBounded tenants) HasToken tenants
                (λ a x y. (x.0, x.1)) h.1 h.1) in
            absurd (none_not_some tokens (sym none_ ∙ q)),
      )
      | inr (tokens, q) ↦ rw q (
          let (f, g) = all_directions-all tokens tenants tenants in
          let minted = mint_all-IsMinted tenants tokens d q in
          (
            λ e. (
              ground (arith, enough),
              AllOf-combine (IsMinted tokens)
                  (λ a. AllOf (IsRefused (token_of vault tokens a.name) a) tenants)
                  (IsBounded tenants) tenants (λ a m r. (token_of vault tokens a.name, m, r)) minted
                  (f e),
            ),
            λ h. g (
                AllOf-combine (IsMinted tokens) (IsBounded tenants)
                  (λ a. AllOf (IsRefused (token_of vault tokens a.name) a) tenants) tenants
                  (λ a m b.
                    subst (λ k. AllOf (IsRefused k a) tenants)
                      (same_token b.0 (token_of vault tokens a.name) (sym b.1 ∙ m)) b.2)
                  minted h.1),
          ))
    ])
  ]
