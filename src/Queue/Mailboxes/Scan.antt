-- ===== src/Queue/Mailboxes/Scan.antt =====
-- The loops of `_validate_mailboxes`, direction by direction.
use mathlib.Core.Path.{subst}
use determa_state_python.Prelude.{
  ℕ, ◌≡◌, ◌≢◌, refl, sym, ap, ◌∙◌, inl, inr, Bool, true, false, not, ◌&&◌, List, [], ◌∷◌, ◌++◌, map,
  Option, none, some, String, ◌==◌, eq_iff, arith, All, Bool-cases,
}
use determa_state_python.Prelude.Distinct.{
  contains, NotIn, Distinct, contains-NotIn, NotIn-contains,
}
use determa_state_python.Prelude.Outcome.{ok, err, >>=-eq-ok}
use determa_state_python.Codes.PersistenceFailureCode.{invalid_aggregate_state}
use determa_state_python.Wire.Typed.{Result}
use determa_state_python.Queue.Document.{Target, Entry, Runtime, Document}
use determa_state_python.Queue.Mailboxes.{
  runtime_entries, entries_of, entry_id, follows, Digest, entry_fits, scan_mailbox, scan_runtimes,
}
use determa_state_python.Queue.Mailboxes.Valid.{Increasing, Fits, RuntimeFits, entry_fits_iff}

-- The identifiers seen after the entries `es`.
abbrev pub after : List String → List Entry → List String
after seen [] = seen
after seen (e ∷ es) = after (entry_id e ∷ seen) es

-- No entry repeats an identifier seen before it.
abbrev pub Fresh : List String → List Entry → Type 0
Fresh seen [] = Unit
Fresh seen (e ∷ es) = NotIn (entry_id e) seen × Fresh (entry_id e ∷ seen) es

after-append :
    (seen : List String) (xs ys : List Entry) → after seen (xs ++ ys) ≡ after (after seen xs) ys
after-append seen [] ys = refl
after-append seen (x ∷ xs) ys = after-append (entry_id x ∷ seen) xs ys

Fresh-append :
    (seen : List String) (xs ys : List Entry)
    → Fresh seen xs
    → Fresh (after seen xs) ys
    → Fresh seen (xs ++ ys)
Fresh-append seen [] ys f g = g
Fresh-append seen (x ∷ xs) ys f g = (f.0, Fresh-append (entry_id x ∷ seen) xs ys f.1 g)

Fresh-split :
    (seen : List String) (xs ys : List Entry)
    → Fresh seen (xs ++ ys)
    → Fresh seen xs × Fresh (after seen xs) ys
Fresh-split seen [] ys f = (tt, f)
Fresh-split seen (x ∷ xs) ys f =
    let (g, h) = Fresh-split (entry_id x ∷ seen) xs ys f.1 in ((f.0, g), h)

Fresh-join :
    (seen s s' : List String) (xs ys zs : List Entry)
    → Fresh seen xs
    → s ≡ after seen xs
    → Fresh s ys
    → s' ≡ after s ys
    → Fresh s' zs
    → Fresh seen ((xs ++ ys) ++ zs)
Fresh-join seen s s' xs ys zs u o u' o' w =
    Fresh-append seen (xs ++ ys) zs (Fresh-append seen xs ys u (subst (λ t. Fresh t ys) o u'))
      (subst (λ t. Fresh t zs) (o' ∙ ap (λ t. after t ys) o ∙ sym (after-append seen xs ys)) w)

-- An identifier seen is none of a fresh list's.
Fresh-NotIn :
    (pre seen : List String) (x : String) (es : List Entry)
    → Fresh (pre ++ x ∷ seen) es
    → NotIn x (map entry_id es)
Fresh-NotIn pre seen x [] f = tt
Fresh-NotIn pre seen x (e ∷ es) f = (middle pre f.0, Fresh-NotIn (entry_id e ∷ pre) seen x es f.1)
  where
    middle : (ys : List String) → NotIn (entry_id e) (ys ++ x ∷ seen) → x ≢ entry_id e
    middle [] n = λ p. n.0 (sym p)
    middle (y ∷ ys) n = middle ys n.1

pub Fresh-Distinct :
    (seen : List String) (es : List Entry) → Fresh seen es → Distinct (map entry_id es)
Fresh-Distinct seen [] f = tt
Fresh-Distinct seen (e ∷ es) f =
    (Fresh-NotIn [] seen (entry_id e) es f.1, Fresh-Distinct (entry_id e ∷ seen) es f.1)

Distinct-Fresh_from :
    (seen : List String) (es : List Entry)
    → Distinct (map entry_id es)
    → All (λ x. NotIn x seen) (map entry_id es)
    → Fresh seen es
Distinct-Fresh_from seen [] d a = tt
Distinct-Fresh_from seen (e ∷ es) d a =
    (a.0, Distinct-Fresh_from (entry_id e ∷ seen) es d.1 (extend (map entry_id es) d.0 a.1))
  where
    extend :
        (xs : List String)
        → NotIn (entry_id e) xs
        → All (λ x. NotIn x seen) xs
        → All (λ x. NotIn x (entry_id e ∷ seen)) xs
    extend [] n b = tt
    extend (x ∷ xs) n b = (((λ p. n.0 (sym p)), b.0), extend xs n.1 b.1)

pub Distinct-Fresh : (es : List Entry) → Distinct (map entry_id es) → Fresh [] es
Distinct-Fresh es d = Distinct-Fresh_from [] es d (nothing_seen (map entry_id es))
  where
    nothing_seen : (xs : List String) → All (λ x. NotIn x []) xs
    nothing_seen [] = tt
    nothing_seen (x ∷ xs) = (tt, nothing_seen xs)

three_tests : (a b c : Bool) → (a && b && not c) ≡ true → (a ≡ true) × (b ≡ true) × (c ≡ false)
three_tests a b c h = ground arith

refused :
    (out : List String) → ◌≢◌ {A = Result (List String)} (err invalid_aggregate_state) (ok out)
refused out h = cc

module _ {B : Type 0} (digest : Digest) (document : Document B) where
  -- What one accepted mailbox shows.
  abbrev Scanned : Target → Option ℕ → List String → List String → List Entry → Type 0
  Scanned target prior seen out es =
      Increasing prior es
      × All (Fits digest document target) es
      × Fresh seen es
      × (out ≡ after seen es)

  Increasing-cons :
      (prior : Option ℕ) (e : Entry) (es : List Entry)
      → follows prior e.queue_sequence ≡ true
      → Increasing (some e.queue_sequence) es
      → Increasing prior (e ∷ es)
  Increasing-cons none e es f i = i
  Increasing-cons (some q) e es f i = (ground arith, i)

  Increasing-uncons :
      (prior : Option ℕ) (e : Entry) (es : List Entry)
      → Increasing prior (e ∷ es)
      → (follows prior e.queue_sequence ≡ true) × Increasing (some e.queue_sequence) es
  Increasing-uncons none e es i = (refl, i)
  Increasing-uncons (some q) e es i = (ground arith, i.1)

  scan_mailbox_sound :
      (target : Target) (prior : Option ℕ) (seen out : List String) (es : List Entry)
      → scan_mailbox digest document target prior seen es ≡ ok out
      → Scanned target prior seen out es
  unfolding scan_mailbox
  scan_mailbox_sound target prior seen out [] h = (tt, tt, tt, ground arith)
  scan_mailbox_sound target prior seen out (e ∷ es) h =
      elim (Bool-cases (
        follows prior e.queue_sequence
        && entry_fits digest document target e
        && not (contains ◌==◌ seen (entry_id e)))) [
          | inl c ↦
              let (follow, fit, unseen) =
                three_tests (follows prior e.queue_sequence) (entry_fits digest document target e)
                  (contains ◌==◌ seen (entry_id e)) c in
              let (i, f, u, o) =
                scan_mailbox_sound target (some e.queue_sequence) (entry_id e ∷ seen) out es
                  (rw c at h) in
              (
                Increasing-cons prior e es follow i,
                ((entry_fits_iff digest document target e).0 fit, f),
                (contains-NotIn ◌==◌ eq_iff (entry_id e) seen unseen, u),
                o,
              )
          | inr c ↦ absurd (refused out (rw c at h))
        ]

  scan_mailbox_complete :
      (target : Target) (prior : Option ℕ) (seen : List String) (es : List Entry)
      → Increasing prior es
      → All (Fits digest document target) es
      → Fresh seen es
      → scan_mailbox digest document target prior seen es ≡ ok (after seen es)
  unfolding scan_mailbox
  scan_mailbox_complete target prior seen [] i f u = refl
  scan_mailbox_complete target prior seen (e ∷ es) i f u =
      let (follow, rest) = Increasing-uncons prior e es i in
      rw (
        follow,
        (entry_fits_iff digest document target e).1 f.0,
        NotIn-contains ◌==◌ eq_iff (entry_id e) seen u.0,
        scan_mailbox_complete target (some e.queue_sequence) (entry_id e ∷ seen) es rest f.1 u.1,
      )

  pub scan_runtimes_sound :
      (seen out : List String) (rs : List (Runtime B))
      → scan_runtimes digest document seen rs ≡ ok out
      → All (RuntimeFits digest document) rs × Fresh seen (entries_of rs)
  unfolding scan_runtimes
  scan_runtimes_sound seen out [] h = (tt, tt)
  scan_runtimes_sound seen out (r ∷ rs) h =
      let (s, p, h') =
        >>=-eq-ok (scan_mailbox digest document r.target_identity none seen r.ready_mailbox) _ h in
      let (s', q, h'') =
        >>=-eq-ok (scan_mailbox digest document r.target_identity none s r.deferred_mailbox) _ h' in
      let (i, f, u, o) = scan_mailbox_sound r.target_identity none seen s r.ready_mailbox p in
      let (i', f', u', o') = scan_mailbox_sound r.target_identity none s s' r.deferred_mailbox q in
      let (fits, fresh) = scan_runtimes_sound s' out rs h'' in
      (
        (
          record {
            ready_fits = f;
            deferred_fits = f';
            ready_increasing = i;
            deferred_increasing = i';
          },
          fits,
        ),
        Fresh-join seen s s' r.ready_mailbox r.deferred_mailbox (entries_of rs) u o u' o' fresh,
      )

  pub scan_runtimes_complete :
      (seen : List String) (rs : List (Runtime B))
      → All (RuntimeFits digest document) rs
      → Fresh seen (entries_of rs)
      → scan_runtimes digest document seen rs ≡ ok (after seen (entries_of rs))
  unfolding scan_runtimes
  scan_runtimes_complete seen [] f u = refl
  scan_runtimes_complete seen (r ∷ rs) f u =
      let (u', w) = Fresh-split seen (runtime_entries r) (entries_of rs) u in
      let (v, v') = Fresh-split seen r.ready_mailbox r.deferred_mailbox u' in
      rw (
        scan_mailbox_complete r.target_identity none seen r.ready_mailbox f.0.ready_increasing
            f.0.ready_fits v,
        scan_mailbox_complete r.target_identity none (after seen r.ready_mailbox) r.deferred_mailbox
            f.0.deferred_increasing f.0.deferred_fits v',
        ← after-append seen r.ready_mailbox r.deferred_mailbox,
        scan_runtimes_complete (after seen (runtime_entries r)) rs f.1 w,
        after-append seen (runtime_entries r) (entries_of rs),
      )
