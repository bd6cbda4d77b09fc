-- ===== src/Hotpath/RateCap/Race.antt =====
-- One bucket of the limiter under calls of `check_and_record` by `n` threads at once, each step one
-- atomic access to the bucket: the `fetch_add` with the test of its result, the `fetch_sub` of a
-- refused call, and the store of 0 by the thread that rolled the window.
use anomstream.Prelude.{
  ℕ, zero, suc, ◌+◌, ◌-◌, ◌^◌, ◌%◌, ◌≤◌, ◌<◌, ◌≡◌, refl, false, arith, ◌==◌, if◌then◌else◌, total,
  total-update, total-le_self, total-cong, ap, subst, length, get_or, set, length-set,
  get_or-set_self, ltb, List, ◌∙◌,
}
use anomstream.Word.{wrapping_add32, wrapping_sub32}
use anomstream.Hotpath.RateCap.{PrefixRateCap, admit}
use anomstream.Hotpath.RateCap.Window.{load}

-- Where a thread stands: in no step of the bucket, or refused with its increment not yet undone.
pub data Pc : Type 0 where
  outside refused : Pc

-- `admitted` counts the calls that were admitted since the bucket was last zeroed.
pub record Bucket : Type 0 where
  pub cell : ℕ
  pub pc : ℕ → Pc
  pub admitted : ℕ

abbrev pub move : (ℕ → Pc) → ℕ → Pc → ℕ → Pc
move pc i p j = if i == j then p else pc j

-- The store of 0 at a roll of the window.
pub data Zero (s : Bucket) : Bucket → Type 0 where
  zeroed : Zero s (record s { cell = 0; admitted = 0 })

abbrev pub empty : Bucket
empty = record { cell = 0; pc = λ _. outside; admitted = 0 }

module _ (n cap_per_window : ℕ) where
  pub data Step (s : Bucket) : Bucket → Type 0 where
    pass :
        (i : ℕ)
        → i < n
        → s.pc i ≡ outside
        → s.cell < cap_per_window
        → Step s (record s { cell = wrapping_add32 s.cell 1; admitted = s.admitted + 1 })
    refuse :
        (i : ℕ)
        → i < n
        → s.pc i ≡ outside
        → cap_per_window ≤ s.cell
        → Step s (record s { cell = wrapping_add32 s.cell 1; pc = move s.pc i refused })
    undo :
        (i : ℕ)
        → i < n
        → s.pc i ≡ refused
        → Step s (record s { cell = wrapping_sub32 s.cell 1; pc = move s.pc i outside })

  -- Runs in one window from a given state on.
  pub data Reach (from : Bucket) : Bucket → Type 0 where
    here : Reach from from
    next : {s t : Bucket} → Reach from s → Step s t → Reach from t

  -- Runs across windows.
  pub data Runs : Bucket → Type 0 where
    start : Runs empty
    step : {s t : Bucket} → Runs s → Step s t → Runs t
    roll : {s t : Bucket} → Runs s → Zero s t → Runs t

abbrev owes : Pc → ℕ
owes outside = 0
owes refused = 1

-- How many of the first `n` threads still owe their `fetch_sub`.
abbrev pub debt : ℕ → Bucket → ℕ
debt n s = total n (λ i. owes (s.pc i))

-- The bucket holds the admitted calls and the refused ones that have not undone their increment, but
-- for the `late` ones of these that were refused before it was last zeroed.
record IsExact (n cap_per_window late : ℕ) (s : Bucket) : Type 0 where
  cell : (s.cell + late) % 2 ^ 32 ≡ (s.admitted + debt n s) % 2 ^ 32
  word : s.cell < 2 ^ 32
  under : s.admitted ≤ cap_per_window + late

debt-move :
    (n : ℕ) (pc : ℕ → Pc) (i : ℕ) (p : Pc)
    → i < n
    → total n (λ j. owes (move pc i p j)) + owes (pc i) ≡ total n (λ j. owes (pc j)) + owes p
debt-move n pc i p h = omega (
  arith,
  total-cong n (λ j. owes (move pc i p j)) (λ j. if i == j then owes p else owes (pc j))
      (λ j q. ground arith),
  total-update n (λ j. owes (pc j)) i (owes p) h,
)

debt-le : (n : ℕ) (s : Bucket) → debt n s ≤ n
debt-le n s = total-le_self n (λ i. owes (s.pc i)) (λ i. ground arith)

Step-IsExact :
    (n c late : ℕ) {s t : Bucket}
    → c + late + n < 2 ^ 32
    → Step n c s t
    → IsExact n c late s
    → IsExact n c late t
Step-IsExact n c late {s} b (pass i h e p) x = record {
  cell = omega (arith, x.cell, x.under, x.word, debt-le n s);
  word = omega arith;
  under = omega (arith, x.cell, x.under, p, debt-le n s);
}
Step-IsExact n c late {s} b (refuse i h e p) x =
    let more = debt-move n s.pc i refused h in
    record {
      cell = omega (arith, x.cell, x.word, more, ap owes e);
      word = omega arith;
      under = x.under;
    }
Step-IsExact n c late {s} b (undo i h e) x =
    let less = debt-move n s.pc i outside h in
    record {
      cell = omega (arith, x.cell, x.word, less, ap owes e);
      word = omega arith;
      under = x.under;
    }

Reach-IsExact :
    (n c : ℕ) {from s : Bucket}
    → c + debt n from + n < 2 ^ 32
    → from.cell ≡ 0
    → from.admitted ≡ 0
    → Reach n c from s
    → IsExact n c (debt n from) s
Reach-IsExact n c {from} b z none_yet here = record {
  cell = omega (arith, z, none_yet);
  word = omega (arith, z);
  under = omega (arith, none_yet);
}
Reach-IsExact n c {from} b z none_yet (next r st) =
    Step-IsExact n c (debt n from) b st (Reach-IsExact n c b z none_yet r)

-- Take a bucket just zeroed by a roll, with any of the `n` threads refused before the roll and their
-- increment not yet undone, where the cap and twice `n` are together below 2^32. In every
-- interleaving of the accesses of the threads from there on, until the next store of 0, no more
-- calls are admitted than the cap and the number of those threads together; with none of them, no
-- more than the cap.
pub admitted-le-cap :
    (n cap_per_window : ℕ) {before from s : Bucket}
    → cap_per_window + n + n < 2 ^ 32
    → Zero before from
    → Reach n cap_per_window from s
    → s.admitted ≤ cap_per_window + debt n before
admitted-le-cap n c {before} b zeroed r =
    (Reach-IsExact n c (omega (arith, debt-le n before)) refl refl r).under

-- The bucket after `k` admissions and nothing else.
filled :
    (n c k : ℕ)
    → 0 < n
    → k ≤ c
    → c < 2 ^ 32
    → Runs n c (record { cell = k; pc = λ _. outside; admitted = k })
filled n c zero h p q = start
filled n c (suc k) h p q =
    let same : wrapping_add32 k 1 ≡ suc k = omega arith in
    let one : k + 1 ≡ suc k = omega arith in
    let more = step (filled n c k h (omega arith) q) (pass 0 h refl (omega arith)) in
    subst (λ a. Runs n c (record { cell = suc k; pc = λ _. outside; admitted = a })) one
      (subst (λ m. Runs n c (record { cell = m; pc = λ _. outside; admitted = k + 1 })) same more)

-- With at least one thread and a cap below 2^32, some run across a roll of the window leaves the
-- bucket at 2^32 - 1 with no call admitted since the roll.
pub late_undo :
    (n cap_per_window : ℕ)
    → 0 < n
    → cap_per_window < 2 ^ 32
    → (s : Bucket) × Runs n cap_per_window s × (s.cell ≡ 2 ^ 32 - 1) × (s.admitted ≡ 0)
late_undo n c h q =
    let full = filled n c c h (omega arith) q in
    let late = roll (step full (refuse 0 h refl (omega arith))) zeroed in
    (_, step late (undo 0 h refl), refl, refl)

abbrev taken : ℕ → PrefixRateCap → List ℕ
taken idx r = set r.buckets idx (wrapping_add32 (load r idx) 1)

-- Where a bucket is at 2^32 - 1 and the cap is below 2^32, a call on it is refused and leaves it
-- at 2^32 - 1.
pub admit_stuck :
    (stripe idx : ℕ) (r : PrefixRateCap)
    → idx < length r.buckets
    → r.cap_per_window < 2 ^ 32
    → load r idx ≡ 2 ^ 32 - 1
    → ((admit stripe idx r).0 ≡ false) × (load (admit stripe idx r).1 idx ≡ 2 ^ 32 - 1)
unfolding admit
admit_stuck stripe idx r h c e =
    let shut : ltb (load r idx) r.cap_per_window ≡ false = ground arith in
    let more : get_or (taken idx r) idx 0 ≡ 0 =
      get_or-set_self r.buckets idx (wrapping_add32 (load r idx) 1) 0 h ∙ omega arith in
    let wide : idx < length (taken idx r) =
      omega (arith, length-set r.buckets idx (wrapping_add32 (load r idx) 1)) in
    rw shut (
      refl,
      get_or-set_self (taken idx r) idx (wrapping_sub32 (get_or (taken idx r) idx 0) 1) 0 wide
          ∙ omega (arith, more),
    )
