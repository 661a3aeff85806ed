-- ===== src/Peer/Buffer.antt =====
-- peer/req_buf.go: the buffer in which the commands of the clients wait for the loop of the peer. The
-- lock makes every round of `add` and every `flush` one step. An `add` that finds no slot sleeps.
pub mod Held
use go_consensus.Base.{
  ℕ, zero, suc, ◌+◌, ◌≤◌, ◌<◌, ◌≡◌, refl, sym, ap, ◌∙◌, List, [], ◌∷◌, ◌++◌, Bool, true, false, not,
  ◌&&◌, Option, none, some, is_some, arith, ltb, leb, ◌==◌, if◌then◌else◌, length, all, get_elem?,
  Map, lookup, insert, lookup-insert, Outcome, ok, fault, ◌>>=◌, Bool-cases, inl, inr,
}
use go_consensus.Command.{Command}

abbrev pub prop_buf_cap : ℕ
prop_buf_cap = 1024

-- A channel is its number.
pub record ReqBufElem : Type 0 where
  pub cmd : Command
  pub c : ℕ

-- `asleep` are the elements whose `add` waits for `full`, and `awake` those that a broadcast has woken.
pub record ReqBuf : Type 0 where
  pub b : Map ReqBufElem
  pub i : ℕ
  pub threshold : ℕ
  pub asleep : List ReqBufElem
  pub awake : List ReqBufElem

unfoldable pub init : ℕ → ReqBuf
init threshold = record { b = []; i = 0; threshold = threshold; asleep = []; awake = [] }

-- One round of the loop of `add`.
unfoldable pub add : ReqBufElem → ReqBuf → ReqBuf
add e rb =
    if ltb rb.i prop_buf_cap
    then record rb { i = rb.i + 1; b = insert rb.i e rb.b }
    else record rb { i = rb.i + 1; asleep = rb.asleep ++ e ∷ [] }

-- A list without its element at a place.
abbrev pub remove_at {ℓ} : {A : Type ℓ} → ℕ → List A → List A
remove_at k [] = []
remove_at zero (x ∷ xs) = xs
remove_at (suc k) (x ∷ xs) = x ∷ remove_at k xs

-- One of the woken `add`s goes round again.
unfoldable pub retry : ℕ → ReqBuf → ReqBuf
unfolding add
retry k rb = elim (get_elem? rb.awake k) [
  | none ↦ rb
  | some e ↦ add e (record rb { awake = remove_at k rb.awake })
]

-- The first slots of the array. A slot that was never written holds nil pointers.
unfoldable pub slice : ℕ → Map ReqBufElem → List (Option ReqBufElem)
slice zero b = []
slice (suc n) b = slice n b ++ lookup n b ∷ []

-- The number of slots in use.
abbrev pub used : ℕ → ℕ
used i = if leb prop_buf_cap i then prop_buf_cap else i

abbrev pub broadcast : ReqBuf → ReqBuf
broadcast rb = record rb { asleep = []; awake = rb.awake ++ rb.asleep }

-- The part of `flush` under the lock, up to the call of `f`.
unfoldable pub wake_full : ReqBuf → ReqBuf
wake_full rb = if leb prop_buf_cap rb.i then broadcast rb else rb

unfoldable pub flush {ℓ} :
    {A : Type ℓ}
    → (List (Option ReqBufElem) → A → Outcome A)
    → Bool
    → ReqBuf
    → A
    → Outcome (ReqBuf × A)
unfolding slice wake_full
flush f force rb s =
    if ltb rb.i rb.threshold && not force
    then ok (rb, s)
    else if ltb 0 (used rb.i)
    then (f (slice (used rb.i) rb.b) s >>= λ s'. ok (record (wake_full rb) { i = 0 }, s'))
    else ok (wake_full rb, s)

-- What is in the slots in use.
abbrev pub stored : ReqBuf → List (Option ReqBufElem)
unfolding slice
stored rb = slice (used rb.i) rb.b

slice-insert :
    (n k : ℕ) (e : ReqBufElem) (b : Map ReqBufElem) → n ≤ k → slice n (insert k e b) ≡ slice n b
unfolding slice
slice-insert zero k e b h = refl
slice-insert (suc n) k e b h =
    let rest = slice-insert n k e b (omega arith) in
    let same : lookup n (insert k e b) ≡ lookup n b = ground (arith, lookup-insert k n e b) in
    rw (rest, same) refl

slice_last :
    (k : ℕ) (e : ReqBufElem) (b : Map ReqBufElem)
    → slice (suc k) (insert k e b) ≡ slice k b ++ some e ∷ []
unfolding slice
slice_last k e b =
    let same : lookup k (insert k e b) ≡ some e = ground (arith, lookup-insert k k e b) in
    rw (slice-insert k k e b (omega arith), same) refl

-- A slot that is free takes the element after those that are in use; with no slot free it sleeps.
pub add_free :
    (e : ReqBufElem) (rb : ReqBuf)
    → ltb rb.i prop_buf_cap ≡ true
    → (slice (used (add e rb).i) (add e rb).b ≡ slice (used rb.i) rb.b ++ some e ∷ [])
      × ((add e rb).asleep ≡ rb.asleep)
      × ((add e rb).awake ≡ rb.awake)
      × ((add e rb).i ≡ rb.i + 1)
unfolding add
add_free e rb h =
    let n : used (rb.i + 1) ≡ suc rb.i = ground arith in
    let m : used rb.i ≡ rb.i = ground arith in
    rw (h, n, m) (slice_last rb.i e rb.b, refl, refl, refl)

pub add_full :
    (e : ReqBufElem) (rb : ReqBuf)
    → ltb rb.i prop_buf_cap ≡ false
    → (slice (used (add e rb).i) (add e rb).b ≡ slice (used rb.i) rb.b)
      × ((add e rb).asleep ≡ rb.asleep ++ e ∷ [])
      × ((add e rb).awake ≡ rb.awake)
      × ((add e rb).i ≡ rb.i + 1)
unfolding add
add_full e rb h =
    let n : used (rb.i + 1) ≡ prop_buf_cap = ground arith in
    let m : used rb.i ≡ prop_buf_cap = ground arith in rw (h, n, m) (refl, refl, refl, refl)
