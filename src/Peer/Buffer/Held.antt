-- ===== src/Peer/Buffer/Held.antt =====
-- peer/req_buf.go: what add, the retries and flush keep of the elements.
use go_consensus.Base.{
  ℕ, zero, suc, ◌+◌, ◌≤◌, ◌≡◌, refl, sym, ap, ◌∙◌, List, [], ◌∷◌, ◌++◌, Bool, true, false, not,
  ◌&&◌, ◌⊎◌, inl, inr, Option, none, some, is_some, arith, ltb, leb, if◌then◌else◌, count, all,
  get_elem?, Outcome, ok, ok_of_bind, ok-injective, if_ok, Bool-cases, Option-cases,
}
use mathlib.Core.List.{append-nil}
use go_consensus.Peer.Buffer.{
  prop_buf_cap, ReqBufElem, ReqBuf, init, add, remove_at, retry, slice, used, wake_full, flush,
  add_free, add_full,
}

count-append {ℓ} :
    {A : Type ℓ} (p : A → Bool) (xs ys : List A) → count p (xs ++ ys) ≡ count p xs + count p ys
count-append p [] ys = omega arith
count-append p (x ∷ xs) ys = ground (arith, count-append p xs ys)

abbrev pub bit : Bool → ℕ
bit b = if b then 1 else 0

count-remove_at {ℓ} :
    {A : Type ℓ} (p : A → Bool) (k : ℕ) (xs : List A) (x : A)
    → get_elem? xs k ≡ some x
    → count p xs ≡ count p (remove_at k xs) + bit (p x)
count-remove_at p k [] x h = cc
count-remove_at p zero (y ∷ xs) x h = ground arith
count-remove_at p (suc k) (y ∷ xs) x h = ground (arith, count-remove_at p k xs x)

-- Whether a slot holds an element with `p`.
abbrev pub in_slot : (ReqBufElem → Bool) → Option ReqBufElem → Bool
in_slot p none = false
in_slot p (some e) = p e

-- How many elements with `p` are in the buffer or wait for it.
abbrev pub held : (ReqBufElem → Bool) → ReqBuf → ℕ
held p rb = count (in_slot p) (slice (used rb.i) rb.b) + count p rb.asleep + count p rb.awake

-- All slots in use are written, and an element sleeps only while no slot is free.
pub record IsBuffer (rb : ReqBuf) : Type 0 where
  pub filled : all is_some (slice (used rb.i) rb.b) ≡ true
  pub full : ltb rb.i prop_buf_cap ≡ true → rb.asleep ≡ []

all-snoc {ℓ} :
    {A : Type ℓ} (p : A → Bool) (xs : List A) (x : A)
    → all p xs ≡ true
    → p x ≡ true
    → all p (xs ++ x ∷ []) ≡ true
all-snoc p [] x h e = ground arith
all-snoc p (y ∷ xs) x h e = ground (arith, all-snoc p xs x)

pub add-held :
    (p : ReqBufElem → Bool) (e : ReqBufElem) (rb : ReqBuf)
    → held p (add e rb) ≡ held p rb + bit (p e)
add-held p e rb = elim (Bool-cases (ltb rb.i prop_buf_cap)) [
  | inl h ↦
      let (s, a, w, i) = add_free e rb h in
      rw (s, a, w)
        (omega (arith, count-append (in_slot p) (slice (used rb.i) rb.b) (some e ∷ []), one_slot))
  | inr h ↦
      let (s, a, w, i) = add_full e rb h in
      rw (s, a, w) (omega (arith, count-append p rb.asleep (e ∷ []), one))
]
  where
    one_slot : count (in_slot p) (some e ∷ []) ≡ bit (p e)
    one_slot = ground arith

    one : count p (e ∷ []) ≡ bit (p e)
    one = ground arith

pub add-IsBuffer : (e : ReqBufElem) (rb : ReqBuf) → IsBuffer rb → IsBuffer (add e rb)
add-IsBuffer e rb v = elim (Bool-cases (ltb rb.i prop_buf_cap)) [
  | inl h ↦
      let (s, a, w, i) = add_free e rb h in
      record {
        filled = rw s (all-snoc is_some (slice (used rb.i) rb.b) (some e) v.filled refl);
        full = λ g. rw a (v.full h);
      }
  | inr h ↦
      let (s, a, w, i) = add_full e rb h in
      record {
        filled = rw s v.filled;
        full = λ g. absurd (omega (arith, i, small (add e rb).i g, large h));
      }
]
  where
    small : (n : ℕ) → ltb n prop_buf_cap ≡ true → suc n ≤ prop_buf_cap
    small n g = ground arith

    large : ltb rb.i prop_buf_cap ≡ false → prop_buf_cap ≤ rb.i
    large g = ground arith

pub retry-held : (p : ReqBufElem → Bool) (k : ℕ) (rb : ReqBuf) → held p (retry k rb) ≡ held p rb
unfolding retry
retry-held p k rb = elim (Option-cases (get_elem? rb.awake k)) [
  | inl e ↦ rw (e, retry) refl
  | inr (x, e) ↦
      rw (e, retry)
        (omega (
          arith,
          add-held p x (record rb { awake = remove_at k rb.awake }),
          count-remove_at p k rb.awake x e,
        ))
]

pub retry-IsBuffer : (k : ℕ) (rb : ReqBuf) → IsBuffer rb → IsBuffer (retry k rb)
unfolding retry
retry-IsBuffer k rb v = elim (Option-cases (get_elem? rb.awake k)) [
  | inl e ↦ rw (e, retry) v
  | inr (x, e) ↦
      rw (e, retry)
        (add-IsBuffer x (record rb { awake = remove_at k rb.awake })
          (record { filled = v.filled; full = v.full }))
]

-- What a `flush` that returns did: it passed on nothing, or all slots in use, of which none is empty,
-- and then nothing sleeps.
pub data Flushed {ℓ} {A : Type ℓ} (f : List (Option ReqBufElem) → A → Outcome A) (rb : ReqBuf)
    (s : A) (rb' : ReqBuf) (s' : A) : Type ℓ where
  kept :
      s ≡ s'
      → rb'.b ≡ rb.b
      → rb'.i ≡ rb.i
      → rb'.asleep ≡ rb.asleep
      → rb'.awake ≡ rb.awake
      → Flushed f rb s rb' s'
  passed :
      f (slice (used rb.i) rb.b) s ≡ ok s'
      → rb'.i ≡ 0
      → rb'.asleep ≡ []
      → rb'.awake ≡ rb.awake ++ rb.asleep
      → Flushed f rb s rb' s'

wake_full-asleep : (rb : ReqBuf) → IsBuffer rb → (wake_full rb).asleep ≡ []
unfolding wake_full
wake_full-asleep rb v = elim (Bool-cases (leb prop_buf_cap rb.i)) [
  | inl h ↦ rw h refl
  | inr h ↦ rw h (v.full (ground arith))
]

wake_full-awake : (rb : ReqBuf) → IsBuffer rb → (wake_full rb).awake ≡ rb.awake ++ rb.asleep
unfolding wake_full
wake_full-awake rb v = elim (Bool-cases (leb prop_buf_cap rb.i)) [
  | inl h ↦ rw h refl
  | inr h ↦ let e : rb.asleep ≡ [] = v.full (ground arith) in rw (h, e) (sym (append-nil rb.awake))
]

pub flush-Flushed {ℓ} :
    {A : Type ℓ} (f : List (Option ReqBufElem) → A → Outcome A) (force : Bool) (rb rb' : ReqBuf)
    (s s' : A)
    → IsBuffer rb
    → flush f force rb s ≡ ok (rb', s')
    → Flushed f rb s rb' s'
unfolding flush
flush-Flushed f force rb rb' s s' v h = elim (Bool-cases (ltb rb.i rb.threshold && not force)) [
  | inl e ↦
      let same : (rb, s) ≡ (rb', s') = ok-injective (rw e at h) in
      kept (ap (λ x. x.1) same) (ap (λ x. x.0.b) (sym same)) (ap (λ x. x.0.i) (sym same))
        (ap (λ x. x.0.asleep) (sym same)) (ap (λ x. x.0.awake) (sym same))
  | inr e ↦ elim (Bool-cases (ltb 0 (used rb.i))) [
    | inl u ↦
        let (t, g, r) = ok_of_bind (f (slice (used rb.i) rb.b) s) _ (rw (e, u) at h) in
        let same = ok-injective r in
        passed (g ∙ ap (λ x. ok x.1) same) (ap (λ x. x.0.i) (sym same))
          (ap (λ x. x.0.asleep) (sym same) ∙ wake_full-asleep rb v)
          (ap (λ x. x.0.awake) (sym same) ∙ wake_full-awake rb v)
    | inr u ↦
        let idle : leb prop_buf_cap rb.i ≡ false = ground arith in
        let w : wake_full rb ≡ rb = unfold wake_full in rw idle refl in
        let same : (wake_full rb, s) ≡ (rb', s') = ok-injective (rw (e, u) at h) in
        kept (ap (λ x. x.1) same) (ap (λ x. x.0.b) (sym same) ∙ ap (λ x. x.b) w)
          (ap (λ x. x.0.i) (sym same) ∙ ap (λ x. x.i) w)
          (ap (λ x. x.0.asleep) (sym same) ∙ ap (λ x. x.asleep) w)
          (ap (λ x. x.0.awake) (sym same) ∙ ap (λ x. x.awake) w)
  ]
]

-- Nothing was passed on, or all slots in use.
pub flush_ran {ℓ} :
    {A : Type ℓ} (f : List (Option ReqBufElem) → A → Outcome A) (force : Bool) (rb rb' : ReqBuf)
    (s s' : A)
    → flush f force rb s ≡ ok (rb', s')
    → (s ≡ s') ⊎ (f (slice (used rb.i) rb.b) s ≡ ok s')
unfolding flush
flush_ran f force rb rb' s s' h = elim (Bool-cases (ltb rb.i rb.threshold && not force)) [
  | inl e ↦ inl (ap (λ x. x.1) (ok-injective (rw e at h)))
  | inr e ↦ elim (Bool-cases (ltb 0 (used rb.i))) [
    | inl u ↦
        let (t, g, r) = ok_of_bind (f (slice (used rb.i) rb.b) s) _ (rw (e, u) at h) in
        inr (g ∙ ap (λ x. ok x.1) (ok-injective r))
    | inr u ↦ inl (ap (λ x. x.1) (ok-injective (rw (e, u) at h)))
  ]
]

-- What `flush` passed on, and what is left, is what there was.
pub Flushed-held {ℓ} :
    {A : Type ℓ} {f : List (Option ReqBufElem) → A → Outcome A} {rb rb' : ReqBuf} {s s' : A}
    (p : ReqBufElem → Bool)
    → Flushed f rb s rb' s'
    → ((s ≡ s') × (held p rb' ≡ held p rb))
      ⊎ ((f (slice (used rb.i) rb.b) s ≡ ok s')
          × (held p rb ≡ count (in_slot p) (slice (used rb.i) rb.b) + held p rb'))
unfolding slice
Flushed-held {rb} p (kept e b i a w) = inl (e, rw (b, i, a, w) refl)
Flushed-held {rb} p (passed g i a w) =
    inr (g, rw (i, a, w) (omega (arith, count-append p rb.awake rb.asleep)))

pub Flushed-IsBuffer {ℓ} :
    {A : Type ℓ} {f : List (Option ReqBufElem) → A → Outcome A} {rb rb' : ReqBuf} {s s' : A}
    → Flushed f rb s rb' s'
    → IsBuffer rb
    → IsBuffer rb'
unfolding slice
Flushed-IsBuffer (kept e b i a w) v = record {
  filled = rw (b, i) v.filled;
  full = λ h. rw a (v.full (rw i at h));
}
Flushed-IsBuffer (passed g i a w) v = record { filled = rw i refl; full = λ h. a }

pub init-IsBuffer : (threshold : ℕ) → IsBuffer (init threshold)
unfolding init slice
init-IsBuffer threshold = record { filled = refl; full = λ h. refl }

-- With a threshold of at most the number of slots, nothing sleeps after a `flush` that returns.
pub flush-asleep {ℓ} :
    {A : Type ℓ} (f : List (Option ReqBufElem) → A → Outcome A) (force : Bool) (rb rb' : ReqBuf)
    (s s' : A)
    → IsBuffer rb
    → rb.threshold ≤ prop_buf_cap
    → flush f force rb s ≡ ok (rb', s')
    → rb'.asleep ≡ []
unfolding flush
flush-asleep f force rb rb' s s' v t h = elim (if_ok (ltb rb.i rb.threshold && not force) _ _ h) [
  | inl (e, g) ↦ ap (λ x. x.0.asleep) (sym (ok-injective g)) ∙ v.full (ground arith)
  | inr (e, g) ↦ elim (if_ok (ltb 0 (used rb.i)) _ _ g) [
    | inl (u, k) ↦
        let (w, c, r) = ok_of_bind (f (slice (used rb.i) rb.b) s) _ k in
        ap (λ x. x.0.asleep) (sym (ok-injective r)) ∙ wake_full-asleep rb v
    | inr (u, k) ↦ ap (λ x. x.0.asleep) (sym (ok-injective k)) ∙ wake_full-asleep rb v
  ]
]
