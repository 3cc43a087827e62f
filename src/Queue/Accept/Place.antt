-- ===== src/Queue/Accept/Place.antt =====
-- Where an accepted entry stands: in one mailbox, behind all others of it, with fresh numbers.
use mathlib.Core.List.{append_assoc}
use mathlib.Core.Option
use determa_state_python.Prelude.{
  ◌≡◌, ◌⊎◌, refl, sym, ap, inl, inr, true, false, List, [], ◌∷◌, ◌++◌, Option, none, some, String,
  ◌==◌, some-eq, Bool-cases,
}
use determa_state_python.Queue.Document.{Entry, Runtime}
use determa_state_python.Queue.Mailboxes.{entries_of, runtime_entries}
use determa_state_python.Prelude.Sort.{Ordered}
use determa_state_python.Queue.Seal.{runtime_before}
use determa_state_python.Queue.Admit.{find_runtime}
use determa_state_python.Queue.Accept.{append_ready}

-- The entries `ys` are the entries `xs` with `e` put somewhere.
abbrev pub Placed : Entry → List Entry → List Entry → Type 0
Placed e xs ys =
    (front : List Entry) × (back : List Entry) × (xs ≡ front ++ back) × (ys ≡ front ++ e ∷ back)

Placed-behind :
    (e : Entry) (zs xs ys : List Entry) → Placed e xs ys → Placed e (zs ++ xs) (zs ++ ys)
Placed-behind e zs xs ys (front, back, p, q) = (
  zs ++ front,
  back,
  rw p (sym (append_assoc zs front back)),
  rw q (sym (append_assoc zs front (e ∷ back))),
)

abbrev pub with_ready : {B : Type 0} → Runtime B → Entry → Runtime B
with_ready r e = record r { ready_mailbox = r.ready_mailbox ++ e ∷ [] }

-- A successful append: to the first runtime of that identifier, or behind it.
pub data Appended {B : Type 0} (k : String) (e : Entry) (r : Runtime B) (rs rs' : List (Runtime B))
    : Type 0 where
  here : (r.runtime_id == k) ≡ true → rs' ≡ with_ready r e ∷ rs → Appended k e r rs rs'
  behind :
      (ss : List (Runtime B))
      → (r.runtime_id == k) ≡ false
      → append_ready k e rs ≡ some ss
      → rs' ≡ r ∷ ss
      → Appended k e r rs rs'

module _ {B : Type 0} (k : String) (e : Entry) where
  pub append_ready-Appended :
      (r : Runtime B) (rs rs' : List (Runtime B))
      → append_ready k e (r ∷ rs) ≡ some rs'
      → Appended k e r rs rs'
  unfolding append_ready
  append_ready-Appended r rs rs' h = by_test (Bool-cases (r.runtime_id == k))
    where
      by_tail :
          (r.runtime_id == k) ≡ false
          → (o : Option (List (Runtime B))) → append_ready k e rs ≡ o
          → Option.map (◌∷◌ r) o ≡ some rs'
          → Appended k e r rs rs'
      by_tail n none p q = absurd (cc)
      by_tail n (some ss) p q = behind ss n p (sym (some-eq q))

      by_test : ((r.runtime_id == k) ≡ true) ⊎ ((r.runtime_id == k) ≡ false) → Appended k e r rs rs'
      by_test (inl y) = here y (sym (some-eq (rw (append_ready, y) at h)))
      by_test (inr n) = by_tail n (append_ready k e rs) refl (rw (append_ready, n) at h)

  pub append_ready-Placed :
      (rs rs' : List (Runtime B))
      → append_ready k e rs ≡ some rs'
      → Placed e (entries_of rs) (entries_of rs')
  append_ready-Placed [] rs' h = absurd (unfold append_ready in cc)
  append_ready-Placed (r ∷ rs) rs' h =
      placed (append_ready-Appended r rs rs' h) (append_ready-Placed rs)
    where
      placed :
          Appended k e r rs rs'
          → ((ss : List (Runtime B))
              → append_ready k e rs ≡ some ss
              → Placed e (entries_of rs) (entries_of ss))
          → Placed e (entries_of (r ∷ rs)) (entries_of rs')
      placed (here y p) later = (
        r.ready_mailbox,
        r.deferred_mailbox ++ entries_of rs,
        append_assoc r.ready_mailbox r.deferred_mailbox (entries_of rs),
        rw (p, append_assoc, append_assoc),
      )
      placed (behind ss n q p) later =
          rw p (Placed-behind e (runtime_entries r) (entries_of rs) (entries_of ss) (later ss q))

  -- A runtime found before an append is found after it, with its identity and status.
  pub append_ready-find :
      (j : String) (rs rs' : List (Runtime B)) (s : Runtime B)
      → append_ready k e rs ≡ some rs'
      → find_runtime j rs ≡ some s
      → (s' : Runtime B) × (find_runtime j rs' ≡ some s') × (s'.target_identity ≡ s.target_identity)
  unfolding find_runtime
  append_ready-find j [] rs' s h f = absurd (cc)
  append_ready-find j (r ∷ rs) rs' s h f =
      found (append_ready-Appended r rs rs' h) (Bool-cases (r.runtime_id == j))
        (append_ready-find j rs)
    where
      found :
          Appended k e r rs rs'
          → ((r.runtime_id == j) ≡ true) ⊎ ((r.runtime_id == j) ≡ false)
          → ((ss : List (Runtime B)) (t : Runtime B)
              → append_ready k e rs ≡ some ss
              → find_runtime j rs ≡ some t
              → (s' : Runtime B) × (find_runtime j ss ≡ some s')
                × (s'.target_identity ≡ t.target_identity))
          → (s' : Runtime B) × (find_runtime j rs' ≡ some s')
            × (s'.target_identity ≡ s.target_identity)
      found (here y p) (inl m) later = (
        with_ready r e,
        rw (p, find_runtime, m),
        ap (λ t. t.target_identity) (some-eq (rw m at f)),
      )
      found (here y p) (inr m) later = (s, rw (p, find_runtime, m) (rw m at f), refl)
      found (behind ss n q p) (inl m) later =
          (r, rw (p, find_runtime, m), ap (λ t. t.target_identity) (some-eq (rw m at f)))
      found (behind ss n q p) (inr m) later =
          let (s', g, t) = later ss s q (rw m at f) in (s', rw (p, find_runtime, m) g, t)

  -- The append succeeds if the runtime is there.
  pub append_ready-total :
      (rs : List (Runtime B)) (s : Runtime B)
      → find_runtime k rs ≡ some s
      → (rs' : List (Runtime B)) × (append_ready k e rs ≡ some rs')
  unfolding append_ready find_runtime
  append_ready-total [] s f = absurd (cc)
  append_ready-total (r ∷ rs) s f = elim (Bool-cases (r.runtime_id == k)) [
    | inl y ↦ (with_ready r e ∷ rs, rw y)
    | inr n ↦ let (ss, q) = append_ready-total rs s (rw n at f) in (r ∷ ss, rw (n, append_ready, q))
  ]

  -- An append leaves the runtimes in order.
  pub append_ready-Ordered :
      (rs rs' : List (Runtime B))
      → append_ready k e rs ≡ some rs'
      → Ordered runtime_before rs
      → Ordered runtime_before rs'
  append_ready-Ordered [] rs' h o = absurd (unfold append_ready in cc)
  append_ready-Ordered (r ∷ []) rs' h o = alone (append_ready-Appended r [] rs' h)
    where
      alone : Appended k e r [] rs' → Ordered runtime_before rs'
      alone (here y p) = rw p tt
      alone (behind ss n q p) = absurd (unfold append_ready in cc)
  append_ready-Ordered (r ∷ s ∷ rs) rs' h o =
      first (append_ready-Appended r (s ∷ rs) rs' h) (append_ready-Ordered (s ∷ rs))
    where
      second :
          (ss : List (Runtime B))
          → Appended k e s rs ss
          → Ordered runtime_before ss
          → Ordered runtime_before (r ∷ ss)
      second ss (here y p) l = rw p (o.0, rw p at l)
      second ss (behind ts n q p) l = rw p (o.0, rw p at l)

      first :
          Appended k e r (s ∷ rs) rs'
          → ((ss : List (Runtime B))
              → append_ready k e (s ∷ rs) ≡ some ss
              → Ordered runtime_before (s ∷ rs)
              → Ordered runtime_before ss)
          → Ordered runtime_before rs'
      first (here y p) later = rw p o
      first (behind ss n q p) later =
          rw p (second ss (append_ready-Appended s rs ss q) (later ss q o.1))
