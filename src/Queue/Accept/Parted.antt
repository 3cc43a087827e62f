-- ===== src/Queue/Accept/Parted.antt =====
-- What the checks of `admit_aggregate_v1` and the split of a batch establish.
use mathlib.Core.Option
use mathlib.Core.List.{map-append}
use determa_state_python.Prelude.{
  ◌≡◌, ◌≢◌, refl, sym, ap, ◌∙◌, ◌⊎◌, inl, inr, true, false, List, [], ◌∷◌, ◌++◌, map, Option, none,
  some, String, ◌==◌, eq_iff, arith, All, All-imp, Bool-cases, Option-cases, some-eq,
}
use determa_state_python.Prelude.Distinct.{NotIn, Distinct}
use determa_state_python.Prelude.Permuted.{Elem}
use determa_state_python.Queue.Document.{Entry, Delivery, Runtime, Document, same_target_iff}
use determa_state_python.Queue.Mailboxes.{entries_of, entry_id}
use determa_state_python.Queue.Seal.{Rules}
use determa_state_python.Queue.Admit.{
  ◌orelse◌, check_target, target_of, validate_each, validate_new_deliveries,
}
use determa_state_python.Queue.Accept.{
  Location, ready, deferred, located, find_entry, Split, split, well_formed,
}
use determa_state_python.Queue.Accept.Keeps.{IsAcceptable}
use determa_state_python.Queue.Accept.Batch.{delivery_id}

orelse-eq-none : {A : Type 0} (a b : Option A) → (a orelse b) ≡ none → (a ≡ none) × (b ≡ none)
orelse-eq-none none b h = (refl, h)
orelse-eq-none (some x) b h = absurd (cc)

pub Option-map-eq-some :
    {A C : Type 0} (f : A → C) (o : Option A) (c : C)
    → Option.map f o ≡ some c
    → (a : A) × (o ≡ some a) × (f a ≡ c)
Option-map-eq-some f none c h = absurd (cc)
Option-map-eq-some f (some a) c h = (a, refl, some-eq h)

abbrev entry_at : Location × Entry → Entry
entry_at p = p.1

located_entries : {B : Type 0} (rs : List (Runtime B)) → map entry_at (located rs) ≡ entries_of rs
located_entries [] = refl
located_entries (r ∷ rs) =
    map-append entry_at
      (map (λ e. (ready, e)) r.ready_mailbox ++ map (λ e. (deferred, e)) r.deferred_mailbox)
      (located rs)
    ∙ rw (
      map-append entry_at (map (λ e. (ready, e)) r.ready_mailbox)
          (map (λ e. (deferred, e)) r.deferred_mailbox),
      there ready r.ready_mailbox,
      there deferred r.deferred_mailbox,
      located_entries rs,
    )
  where
    there : (l : Location) (es : List Entry) → map entry_at (map (λ e. (l, e)) es) ≡ es
    there l [] = refl
    there l (e ∷ es) = ap (◌∷◌ e) (there l es)

find_entry-NotIn :
    (k : String) (ps : List (Location × Entry))
    → find_entry k ps ≡ none
    → NotIn k (map entry_id (map entry_at ps))
unfolding find_entry
find_entry-NotIn k [] h = tt
find_entry-NotIn k ((l, e) ∷ ps) h = elim (Bool-cases (entry_id e == k)) [
  | inl y ↦ absurd (no (rw y at h))
  | inr n ↦ (
    (λ q. true_false (sym ((eq_iff (entry_id e) k).1 (sym q)) ∙ n)),
    find_entry-NotIn k ps (rw n at h),
  )
]
  where
    no : Path (Option (Location × Entry)) (some (l, e)) none → ⊥
    no q = absurd (cc)

    true_false : true ≢ false
    true_false q = absurd (cc)

find_entry-Elem :
    (k : String) (ps : List (Location × Entry)) (l : Location) (e : Entry)
    → find_entry k ps ≡ some (l, e)
    → Elem e (map entry_at ps)
unfolding find_entry
find_entry-Elem k [] l e h = absurd (cc)
find_entry-Elem k ((m, f) ∷ ps) l e h = elim (Bool-cases (entry_id f == k)) [
  | inl y ↦ inl (sym (ap (λ (p : Location × Entry). p.1) (some-eq (rw y at h))))
  | inr n ↦ inr (find_entry-Elem k ps l e (rw n at h))
]

find_entry-id :
    (k : String) (ps : List (Location × Entry)) (l : Location) (e : Entry)
    → find_entry k ps ≡ some (l, e)
    → entry_id e ≡ k
unfolding find_entry
find_entry-id k [] l e h = absurd (cc)
find_entry-id k ((m, f) ∷ ps) l e h = elim (Bool-cases (entry_id f == k)) [
  | inl y ↦
      ap (λ (p : Location × Entry). entry_id p.1) (sym (some-eq (rw y at h)))
      ∙ (eq_iff (entry_id f) k).0 y
  | inr n ↦ find_entry-id k ps l e (rw n at h)
]

pub well_formed-map :
    {B : Type 0} (rules : Rules B) (batch : List (Option Delivery)) (ds : List Delivery)
    → well_formed rules batch ≡ some ds
    → batch ≡ map some ds
unfolding well_formed
well_formed-map rules [] ds h = ap (map some) (some-eq h)
well_formed-map rules (none ∷ batch) ds h = absurd (cc)
well_formed-map rules (some d ∷ batch) ds h = elim (Bool-cases (d.envelope.event_id == "")) [
  | inl y ↦ absurd (none_some (rw (well_formed, y) at h))
  | inr n ↦
      let (t, p, q) =
        Option-map-eq-some _ (well_formed rules batch) ds (rw (well_formed, n) at h) in
      rw (well_formed-map rules batch t p, ← q) refl
]
  where
    none_some : Path (Option (List Delivery)) none (some ds) → ⊥
    none_some q = absurd (cc)

module _ {B : Type 0} (rules : Rules B) (document : Document B) where
  check_target-IsAcceptable :
      (d : Delivery) (o : Option (Runtime B))
      → target_of rules document d ≡ o
      → check_target rules document d o ≡ none
      → NotIn d.envelope.event_id (map entry_id (entries_of document.runtimes))
      → IsAcceptable rules.digest document d
  unfolding check_target
  check_target-IsAcceptable d none found h new = absurd (cc)
  check_target-IsAcceptable d (some r) found h new = record {
    target = r;
    found = found;
    addressed = (same_target_iff r.target_identity d.envelope.target).0 (ground arith);
    payload_map = ground arith;
    sealed = ground arith;
    is_new = new;
  }

  pub check_each-IsAcceptable :
      (ds : List Delivery)
      → validate_each rules document ds ≡ none
      → All (λ d. NotIn (delivery_id d) (map entry_id (entries_of document.runtimes))) ds
      → All (IsAcceptable rules.digest document) ds
  unfolding validate_each
  check_each-IsAcceptable [] h a = tt
  check_each-IsAcceptable (d ∷ ds) h a =
      let (source, h1) = orelse-eq-none _ _ h in
      let (target, h2) = orelse-eq-none _ _ h1 in
      (
        check_target-IsAcceptable d (target_of rules document d) refl target a.0,
        check_each-IsAcceptable ds h2 a.1,
      )

  pub validated :
      (es : List Delivery)
      → validate_new_deliveries rules document es ≡ none
      → validate_each rules document es ≡ none
  unfolding validate_new_deliveries
  validated es n = (orelse-eq-none _ _ n).1

  -- A queued entry has the event identifier of a delivery and the digest of its envelope.
  pub record Replays (d : Delivery) (e : Entry) : Type 0 where
    pub listed : Elem e (entries_of document.runtimes)
    pub same_id : entry_id e ≡ delivery_id d
    pub same_digest :
        rules.digest document.root_instance_id d.delivery_mode d.envelope ≡ e.envelope_digest

  -- What the split of a batch says.
  pub record SplitOf (ds : List Delivery) (s : Split) : Type 0 where
    pub fresh :
        All
          (λ d. NotIn (delivery_id d) (map entry_id (entries_of document.runtimes)))
          s.new_deliveries
    pub old :
        All
          (λ (p : Location × Entry). (d : Delivery) × Elem d ds × Replays d (entry_at p))
          s.replayed
    pub from_batch : All (λ d. Elem d ds) s.new_deliveries
    pub covers : All (λ d. Elem d s.new_deliveries ⊎ ((e : Entry) × Replays d e)) ds
    pub keeps_out :
        (k : String) → NotIn k (map delivery_id ds) → NotIn k (map delivery_id s.new_deliveries)
    pub keeps_distinct : Distinct (map delivery_id ds) → Distinct (map delivery_id s.new_deliveries)

  pub split-SplitOf :
      (ds : List Delivery) (s : Split)
      → split rules document.root_instance_id (located document.runtimes) ds ≡ some s
      → SplitOf ds s
  unfolding split
  split-SplitOf [] s h = rw (← some-eq h) (record {
    fresh = tt;
    old = tt;
    from_batch = tt;
    covers = tt;
    keeps_out = λ k n. tt;
    keeps_distinct = λ d. tt;
  })
  split-SplitOf (d ∷ ds) s h =
      elim (Option-cases (find_entry d.envelope.event_id (located document.runtimes))) [
        | inl n ↦
            let (t, p, q) =
              Option-map-eq-some _
                (split rules document.root_instance_id (located document.runtimes) ds) s
                (rw (split, n) at h) in
            let rest = split-SplitOf ds t p in
            rw (← q) (record {
              fresh = (absent n, rest.fresh);
              old = All-imp _ _ (λ p o. (o.0, inr o.1, o.2)) t.replayed rest.old;
              from_batch = (inl refl, All-imp _ _ (λ e m. inr m) t.new_deliveries rest.from_batch);
              covers = (
                inl (inl refl),
                All-imp _ _ (λ e m. elim m [ inl x ↦ inl (inr x) | inr y ↦ inr y ]) ds rest.covers,
              );
              keeps_out = λ k m. (m.0, rest.keeps_out k m.1);
              keeps_distinct = λ u. (rest.keeps_out (delivery_id d) u.0, rest.keeps_distinct u.1);
            })
        | inr ((l, e), f) ↦
            elim (Bool-cases (
              rules.digest document.root_instance_id d.delivery_mode d.envelope
              == e.envelope_digest)) [
                | inr n ↦ absurd (none_some (rw (split, f, n) at h))
                | inl y ↦
                    let (t, p, q) =
                      Option-map-eq-some _
                        (split rules document.root_instance_id (located document.runtimes) ds) s
                        (rw (split, f, y) at h) in
                    let rest = split-SplitOf ds t p in
                    rw (← q) (record {
                      fresh = rest.fresh;
                      old = (
                        (d, inl refl, replayed l e f y),
                        All-imp _ _ (λ p o. (o.0, inr o.1, o.2)) t.replayed rest.old,
                      );
                      from_batch = All-imp _ _ (λ e m. inr m) t.new_deliveries rest.from_batch;
                      covers = (inr (e, replayed l e f y), rest.covers);
                      keeps_out = λ k m. rest.keeps_out k m.1;
                      keeps_distinct = λ u. rest.keeps_distinct u.1;
                    })
              ]
      ]
    where
      none_some : none ≢ some s
      none_some q = absurd (cc)

      absent :
          find_entry d.envelope.event_id (located document.runtimes) ≡ none
          → NotIn d.envelope.event_id (map entry_id (entries_of document.runtimes))
      absent n =
          rw (← located_entries document.runtimes)
            (find_entry-NotIn d.envelope.event_id (located document.runtimes) n)

      present :
          (l : Location) (e : Entry)
          → find_entry d.envelope.event_id (located document.runtimes) ≡ some (l, e)
          → Elem e (entries_of document.runtimes)
      present l e f =
          rw (← located_entries document.runtimes)
            (find_entry-Elem d.envelope.event_id (located document.runtimes) l e f)

      replayed :
          (l : Location) (e : Entry)
          → find_entry d.envelope.event_id (located document.runtimes) ≡ some (l, e)
          → (rules.digest document.root_instance_id d.delivery_mode d.envelope == e.envelope_digest)
            ≡ true
          → Replays d e
      replayed l e f y = record {
        listed = present l e f;
        same_id = find_entry-id d.envelope.event_id (located document.runtimes) l e f;
        same_digest = (eq_iff _ _).0 y;
      }
