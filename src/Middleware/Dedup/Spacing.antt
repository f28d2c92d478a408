-- ===== src/Middleware/Dedup/Spacing.antt =====
-- How often a finding passes the deduper (middleware/dedup.go).
use sqlguard.Prelude.{
  ℕ, suc, ◌<◌, ◌≡◌, refl, ◌∙◌, Bool, true, false, ◌&&◌, List, [], ◌∷◌, Option, none, some, Bytes,
  arith, lookup, size, leb, equal, equal_iff, equal_refl, lookup-insert, lookup-delete_if,
  if◌then◌else◌, ℤ, passed, is_positive, Bool-cases, inl, inr,
}
use sqlguard.Middleware.Dedup.{Deduper, finding_key, sweep, admit, allow_key, allow}
use sqlguard.Middleware.Dedup.Keys.{Inv, allow_key-Inv}

-- A finding that is offered: its instant, fingerprint and rule.
pub record Offer : Type 0 where
  pub now : ℕ
  pub fingerprint : Bytes
  pub rule : Bytes

abbrev pub offer_key : Offer → Bytes
offer_key o = finding_key o.fingerprint o.rule

-- The deduper over a sequence of findings, with those that it lets through.
unfoldable pub allow_all : Deduper → List Offer → Deduper × List Offer
allow_all d [] = (d, [])
allow_all d (o ∷ os) =
    let (d', passes) = allow d o.fingerprint o.rule o.now in
    let (d'', later) = allow_all d' os in (d'', if passes then o ∷ later else later)

-- How many findings have the key.
pub offers_of : Bytes → List Offer → ℕ
offers_of k [] = 0
offers_of k (o ∷ os) = let rest = offers_of k os in if equal (offer_key o) k then suc rest else rest

-- Every finding lies in the window that opened at `first`.
abbrev pub Within : ℤ → ℕ → List Offer → Type 0
Within window first [] = Unit
Within window first (o ∷ os) = (passed o.now first window ≡ false) × Within window first os

sweep_keeps :
    (d : Deduper) (now : ℕ) (k : Bytes) (last : ℕ)
    → Inv d
    → lookup k d.seen ≡ some last
    → passed now last d.window ≡ false
    → lookup k (sweep d now).seen ≡ some last
unfolding sweep
sweep_keeps d now k last i h young =
    ground (arith, lookup-delete_if k (λ (last : ℕ). passed now last d.window) d.seen i.unique)

sweep_window : (d : Deduper) (now : ℕ) → (sweep d now).window ≡ d.window
unfolding sweep
sweep_window d now = ground arith

admit_window :
    (d : Deduper) (now : ℕ) (k : Bytes) (o : Option ℕ) → (admit d now k o).0.window ≡ d.window
unfolding admit
admit_window d now k none = ground arith
admit_window d now k (some last) = ground arith

allow_key_window : (d : Deduper) (k : Bytes) (now : ℕ) → (allow_key d k now).0.window ≡ d.window
unfolding allow_key
allow_key_window d k now = admit_window (sweep d now) now k _ ∙ sweep_window d now

admit_other :
    (d : Deduper) (now : ℕ) (j k : Bytes) (o : Option ℕ)
    → equal j k ≡ false
    → lookup k (admit d now j o).0.seen ≡ lookup k d.seen
unfolding admit
admit_other d now j k none other = ground (arith, lookup-insert j k now d.seen)
admit_other d now j k (some last) other = ground (arith, lookup-insert j k now d.seen)

-- Inside the window of a key, no call admits it and every call keeps it.
allow_key_keeps :
    (d : Deduper) (now : ℕ) (j k : Bytes) (last : ℕ)
    → Inv d
    → lookup k d.seen ≡ some last
    → passed now last d.window ≡ false
    → (lookup k (allow_key d j now).0.seen ≡ some last)
      × ((allow_key d j now).1 && equal j k ≡ false)
unfolding allow_key
allow_key_keeps d now j k last i h young =
    let kept = sweep_keeps d now k last i h young in
    elim (Bool-cases (equal j k)) [
      | inl same ↦ rw ((equal_iff j k).0 same, kept, admit, sweep_window d now, young) (kept, refl)
      | inr other ↦ rw other (admit_other (sweep d now) now j k _ other ∙ kept, ground arith)
    ]

allow_on :
    (d : Deduper) (f r : Bytes) (now : ℕ)
    → is_positive d.window ≡ true
    → allow d f r now ≡ allow_key d (finding_key f r) now
unfolding allow
allow_on d f r now on = rw on

offers_of_silent :
    (os : List Offer) (d : Deduper) (k : Bytes) (last : ℕ)
    → Inv d
    → is_positive d.window ≡ true
    → lookup k d.seen ≡ some last
    → Within d.window last os
    → offers_of k (allow_all d os).1 ≡ 0
unfolding allow_all offers_of
offers_of_silent [] d k last i on h w = refl
offers_of_silent (o ∷ os) d k last i on h (young, w) =
    let (kept, stopped) = allow_key_keeps d o.now (offer_key o) k last i h young in
    let d' = (allow_key d (offer_key o) o.now).0 in
    let window = allow_key_window d (offer_key o) o.now in
    let i' = allow_key-Inv d (offer_key o) o.now i in
    let rest = offers_of_silent os d' k last i' (rw window on) kept (rw window w) in
    rw (allow_on d o.fingerprint o.rule o.now on) (ground (arith, rest))

-- A key that passes is remembered at that instant.
allow_key_remembers :
    (d : Deduper) (k : Bytes) (now : ℕ)
    → (allow_key d k now).1 ≡ true
    → lookup k (allow_key d k now).0.seen ≡ some now
unfolding allow_key
allow_key_remembers d k now = go (lookup k (sweep d now).seen)
  where
    go :
        (o : Option ℕ)
        → (admit (sweep d now) now k o).1 ≡ true
        → lookup k (admit (sweep d now) now k o).0.seen ≡ some now
    go none p =
        unfold admit in ground (arith, lookup-insert k k now (sweep d now).seen, equal_refl k)
    go (some last) p =
        unfold admit in ground (arith, lookup-insert k k now (sweep d now).seen, equal_refl k)

-- With a positive window, and a map within its capacity and with distinct keys: a finding that
-- passes at some instant is the only one with its key that passes among all the findings offered,
-- with any keys, within the window from that instant on.
pub allow_all_once :
    (d : Deduper) (o : Offer) (os : List Offer)
    → Inv d
    → is_positive d.window ≡ true
    → (allow d o.fingerprint o.rule o.now).1 ≡ true
    → Within d.window o.now os
    → offers_of (offer_key o) (allow_all d (o ∷ os)).1 ≡ 1
unfolding allow_all offers_of
allow_all_once d o os i on pass w =
    let k = offer_key o in
    let same = allow_on d o.fingerprint o.rule o.now on in
    let pass' : (allow_key d k o.now).1 ≡ true = rw same at pass in
    let window = allow_key_window d k o.now in
    let i' = allow_key-Inv d k o.now i in
    let rest =
      offers_of_silent os (allow_key d k o.now).0 k o.now i' (rw window on)
        (allow_key_remembers d k o.now pass') (rw window w) in
    rw (same, pass') (rw (equal_refl k, rest) refl)

-- Whether a key passes, from what the map holds of it.
abbrev pub opens : ℕ → ℤ → Option ℕ → Bool
opens now window none = true
opens now window (some last) = passed now last window

-- Below the capacity a finding passes exactly if its key was never seen, or its window is over;
-- a window that is not positive lets every finding pass and remembers none.
pub allow_lem :
    (d : Deduper) (f r : Bytes) (now : ℕ)
    → size d.seen < d.max_keys
    → (is_positive d.window ≡ true
        → (allow d f r now).1 ≡ opens now d.window (lookup (finding_key f r) d.seen))
      × (is_positive d.window ≡ false → allow d f r now ≡ (d, true))
unfolding allow allow_key
allow_lem d f r now room =
    let below : leb d.max_keys (size d.seen) ≡ false = ground arith in
    (λ on. rw (on, below) (go (lookup (finding_key f r) d.seen) below), λ off. rw off)
  where
    go :
        (o : Option ℕ)
        → leb d.max_keys (size d.seen) ≡ false
        → (admit d now (finding_key f r) o).1 ≡ opens now d.window o
    go none below = unfold admit in rw below
    go (some last) below = unfold admit in ground arith
