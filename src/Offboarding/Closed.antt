-- ===== src/Offboarding/Closed.antt =====
-- arcanium/api/src/offboarding.js: no operation leaves an offboarded application with an intent that is
-- not archived.
use mathlib.Core.Path.{subst}
use arcanium.Prelude.{
  ℕ, String, ◌≡◌, refl, inl, inr, true, Option, none, some, List, [], ◌∷◌, arith, eqb, Bool-cases,
  is_some, or_default, select, AllOf, AllOf-map,
}
use arcanium.Offboarding.{
  select_rows, namespace_of, Member, Desired, Books, Reads, find_member, update_member,
  mark_initiated, mark_offboarded, close_rows, complete, is_idle, check_member,
  check_offboarding_completion, sweep_members, sweep_offboarding, is_in_progress, archive_row,
  offboard_row, offboard_rows, initiate_offboarding, initiate_member, submit, request_key_destroy,
  key_is_active, request_for,
}
use arcanium.Offboarding.Closing.{IsArchivedRow, close_rows-archived, close_rows-keeps}

abbrev pub IsClosed : List Desired → Member → Type 0
IsClosed desired m = is_some m.offboarded_at ≡ true → AllOf (IsArchivedRow m.id) desired

abbrev pub AreClosed : Books → Type 0
AreClosed t = AllOf (IsClosed t.desired) t.applications

same_id : (a b : ℕ) → eqb a b ≡ true → b ≡ a
same_id a b h = ground arith

-- A change of the members that the closed rows allow.
update_keeps :
    (f : Member → Member) (id : ℕ) (desired : List Desired) (applications : List Member)
    → ((m : Member) → eqb m.id id ≡ true → IsClosed desired m → IsClosed desired (f m))
    → AllOf (IsClosed desired) applications
    → AllOf (IsClosed desired) (update_member f id applications)
unfolding update_member
update_keeps f id desired [] each h = tt
update_keeps f id desired (m ∷ applications) each (h, hs) =
    let rest = update_keeps f id desired applications each hs in
    elim (Bool-cases (eqb m.id id)) [
      | inl same ↦ rw same (each m same h, rest)
      | inr other ↦ rw other (h, rest)
    ]

module _ (app now : ℕ) (t : Books) (h : AreClosed t) where
  rows_keep : AllOf (IsClosed (close_rows app now t.requests t.desired).1) t.applications
  rows_keep =
      AllOf-map (IsClosed t.desired) (IsClosed (close_rows app now t.requests t.desired).1)
        (λ m closed gone. close_rows-keeps app now m.id t.requests t.desired (closed gone))
        t.applications h

  complete-AreClosed : AreClosed (complete app now t (close_rows app now t.requests t.desired))
  complete-AreClosed = elim (Bool-cases (close_rows app now t.requests t.desired).0) [
    | inl e ↦ rw e (
        update_keeps (mark_offboarded now) app (close_rows app now t.requests t.desired).1
          t.applications
          (λ m same _ _.
            subst (λ id. AllOf (IsArchivedRow id) (close_rows app now t.requests t.desired).1)
              (same_id m.id app same) (close_rows-archived app now t.requests t.desired e))
          rows_keep)
    | inr e ↦ rw e rows_keep
  ]

  check_at : (found : Option Member) → AreClosed (check_member app now t found).1
  check_at none = h
  check_at (some a) = elim (Bool-cases (is_idle a)) [
    | inl idle ↦ rw idle h
    | inr busy ↦ rw busy complete-AreClosed
  ]

  pub check-AreClosed : AreClosed (check_offboarding_completion app now t).1
  unfolding check_offboarding_completion
  check-AreClosed = check_at (find_member app t.applications)

sweep-AreClosed :
    (applications : List Member) (now : ℕ) (t : Books)
    → AreClosed t
    → AreClosed (sweep_members applications now t).1
unfolding sweep_members
sweep-AreClosed [] now t h = h
sweep-AreClosed (a ∷ applications) now t h =
    sweep-AreClosed applications now (check_offboarding_completion a.id now t).1
      (check-AreClosed a.id now t h)

-- The operations, in any order, each at its time.
pub data Operation : Type 0 where
  initiate : ℕ → Option String → Operation
  check : ℕ → Operation
  sweep : Operation

module _ (reads : Reads) (today : String) (now : ℕ) where
  archive_row-keeps :
      (id other : ℕ) (desired : List Desired)
      → AllOf (IsArchivedRow other) desired
      → AllOf (IsArchivedRow other) (archive_row reads today now id desired)
  unfolding archive_row
  archive_row-keeps id other [] h = tt
  archive_row-keeps id other (d ∷ desired) (h, hs) =
      let rest = archive_row-keeps id other desired hs in
      elim (Bool-cases (eqb d.id id)) [
        | inl same ↦ rw same ((λ _. refl), rest)
        | inr different ↦ rw different (h, rest)
      ]

  archiving-AreClosed :
      (id : ℕ) (t : Books)
      → AreClosed t
      → AreClosed (record t { desired = archive_row reads today now id t.desired })
  archiving-AreClosed id t h =
      AllOf-map (IsClosed t.desired) (IsClosed (archive_row reads today now id t.desired))
        (λ m closed gone. archive_row-keeps id m.id t.desired (closed gone)) t.applications h

  -- A request changes neither the members nor the intents.
  request-AreClosed :
      (d : Desired) (name actor : String) (ns : Option String) (owner : Option ℕ) (t : Books)
      → AreClosed t
      → AreClosed (submit reads today now d (request_for reads today now name actor ns owner t) t).1
  request-AreClosed d name actor ns none t h = h
  request-AreClosed d name actor ns (some app) t h = h

  offboard_row-AreClosed :
      (app : ℕ) (actor : String) (ns : Option String) (d : Desired) (path : Option String)
      (t : Books)
      → AreClosed t
      → AreClosed (offboard_row reads today now app actor ns (d, path) t).1
  unfolding request_key_destroy
  offboard_row-AreClosed app actor ns d path t h =
      elim (Bool-cases (key_is_active reads today now path ns)) [
        | inl active ↦ rw active (request-AreClosed d d.key_name actor ns (some app) t h)
        | inr gone ↦ rw gone (archiving-AreClosed d.id t h)
      ]

  offboard_rows-AreClosed :
      (app : ℕ) (actor : String) (ns : Option String) (rows : List (Desired × Option String))
      (t : Books)
      → AreClosed t
      → AreClosed (offboard_rows reads today now app actor ns rows t).1
  unfolding offboard_rows
  offboard_rows-AreClosed app actor ns [] t h = h
  offboard_rows-AreClosed app actor ns ((d, path) ∷ rows) t h =
      offboard_rows-AreClosed app actor ns rows
        (offboard_row reads today now app actor ns (d, path) t).1
        (offboard_row-AreClosed app actor ns d path t h)

  initiate_at :
      (app : ℕ) (actor : String) (t : Books) (found : Option Member)
      → AreClosed t
      → AreClosed (initiate_member reads today now app actor t found).1
  initiate_at app actor t none h = h
  initiate_at app actor t (some a) h = elim (Bool-cases (is_some a.offboarded_at)) [
    | inl gone ↦ rw gone h
    | inr here ↦
        let ns = namespace_of reads today now a.supplier_id t.suppliers in
        let rows = select_rows reads today now app t.profiles t.desired in
        rw here (
          check-AreClosed app now (offboard_rows reads today now app actor ns rows t).1
            (offboard_rows-AreClosed app actor ns rows t h))
  ]

  initiate-AreClosed :
      (app : ℕ) (actor : Option String) (t : Books)
      → AreClosed t
      → AreClosed (initiate_offboarding reads today now app actor t).1
  unfolding initiate_offboarding
  initiate-AreClosed app actor t h =
      let begun = update_member (mark_initiated now) app t.applications in
      initiate_at app (or_default actor "arcanium") (record t { applications = begun })
        (find_member app begun)
        (update_keeps (mark_initiated now) app t.desired t.applications (λ m _ closed. closed) h)

  unfoldable pub perform : Operation → Books → Books
  perform (initiate app actor) t = (initiate_offboarding reads today now app actor t).1
  perform (check app) t = (check_offboarding_completion app now t).1
  perform sweep t = (sweep_offboarding now t).2

  perform-AreClosed : (o : Operation) (t : Books) → AreClosed t → AreClosed (perform o t)
  unfolding perform sweep_offboarding
  perform-AreClosed (initiate app actor) t h = initiate-AreClosed app actor t h
  perform-AreClosed (check app) t h = check-AreClosed app now t h
  perform-AreClosed sweep t h = sweep-AreClosed (select is_in_progress t.applications) now t h

-- An operation with what Vault answers, the date and the time when it is made.
pub record Moment : Type 0 where
  pub reads : Reads
  pub today : String
  pub now : ℕ
  pub operation : Operation

unfoldable pub perform_all : List Moment → Books → Books
perform_all [] t = t
perform_all (m ∷ moments) t = perform_all moments (perform m.reads m.today m.now m.operation t)

-- No sequence of initiations, checks and sweeps, whatever Vault answers, leaves an offboarded
-- application with an intent that is not archived, where there was none before.
pub closed_stays_closed :
    (moments : List Moment) (t : Books) → AreClosed t → AreClosed (perform_all moments t)
unfolding perform_all
closed_stays_closed [] t h = h
closed_stays_closed (m ∷ moments) t h =
    closed_stays_closed moments (perform m.reads m.today m.now m.operation t)
      (perform-AreClosed m.reads m.today m.now m.operation t h)
