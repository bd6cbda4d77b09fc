-- ===== src/Core/Forest/PointStore/Race.antt =====
-- `incr_ref` and `decr_ref` of one live slot, run by many threads at once: the slot's count is one
-- atomic cell, and each step is one access to it. The forest frees slots only while no such thread
-- runs, so the slot stays live throughout.
use anomstream.Prelude.{ℕ, ◌+◌, ◌-◌, ◌%◌, ◌^◌, ◌≤◌, ◌<◌, ◌≡◌, arith, ◌==◌, if◌then◌else◌}

-- Where a thread stands.
pub data Pc : Type 0 where
  outside : Pc  -- in no call
  looping : Pc  -- at the head of the loop of `decr_ref`
  loaded : (current : ℕ) → Pc  -- before the exchange

-- The cell and the threads, with counts kept for the statements: calls of `incr_ref`, calls of
-- `decr_ref` that succeeded, and those among them that answered `true`.
pub record Shared : Type 0 where
  pub cell : ℕ
  pub pc : ℕ → Pc
  pub incs : ℕ
  pub decs : ℕ
  pub trues : ℕ

abbrev pub move : (ℕ → Pc) → ℕ → Pc → ℕ → Pc
move pc i p j = if i == j then p else pc j

-- One step of thread `i`.
pub data Step (s : Shared) : Shared → Type 0 where
  -- `fetch_add`
  incr :
      (i : ℕ)
      → s.pc i ≡ outside
      → Step s (record s { cell = (s.cell + 1) % 2 ^ 32; incs = s.incs + 1 })
  enter : (i : ℕ) → s.pc i ≡ outside → Step s (record s { pc = move s.pc i looping })
  -- The load finds 0: the call returns an error.
  refuse : (i : ℕ) → s.pc i ≡ looping → s.cell ≡ 0 → Step s (record s { pc = move s.pc i outside })
  load :
      (i : ℕ)
      → s.pc i ≡ looping
      → 0 < s.cell
      → Step s (record s { pc = move s.pc i (loaded s.cell) })
  -- The exchange fails, because the cell has changed or for no reason.
  fail : (i c : ℕ) → s.pc i ≡ loaded c → Step s (record s { pc = move s.pc i looping })
  -- The exchange succeeds, and the call answers whether the count is 0 now.
  win :
      (i c : ℕ)
      → s.pc i ≡ loaded c
      → s.cell ≡ c
      → Step s (record s {
        cell = c - 1;
        pc = move s.pc i outside;
        decs = s.decs + 1;
        trues = s.trues + (if c - 1 == 0 then 1 else 0);
      })

abbrev pub start : ℕ → Shared
start n = record { cell = n; pc = λ _. outside; incs = 0; decs = 0; trues = 0 }

pub data Reach (n : ℕ) : Shared → Type 0 where
  here : Reach n (start n)
  next : {s t : Shared} → Reach n s → Step s t → Reach n t

-- A thread before its exchange has read a positive count.
abbrev HasRead : Shared → Type 0
HasRead s = (j c : ℕ) → s.pc j ≡ loaded c → 0 < c

Step-HasRead : {s t : Shared} → Step s t → HasRead s → HasRead t
Step-HasRead (incr i e) h j c q = h j c q
Step-HasRead (enter i e) h j c q = ground (arith, h j c)
Step-HasRead (refuse i e z) h j c q = ground (arith, h j c)
Step-HasRead (load i e p) h j c q = ground (arith, h j c)
Step-HasRead (fail i c' e) h j c q = ground (arith, h j c)
Step-HasRead (win i c' e k) h j c q = ground (arith, h j c)

Reach-HasRead : {n : ℕ} {s : Shared} → Reach n s → HasRead s
Reach-HasRead here = λ j c q. cc
Reach-HasRead (next r st) = Step-HasRead st (Reach-HasRead r)

incs_mono : {s t : Shared} → Step s t → s.incs ≤ t.incs
incs_mono (incr i e) = omega arith
incs_mono (enter i e) = omega arith
incs_mono (refuse i e z) = omega arith
incs_mono (load i e p) = omega arith
incs_mono (fail i c e) = omega arith
incs_mono (win i c e k) = omega arith

Step-balance :
    (n : ℕ) {s t : Shared}
    → Step s t
    → HasRead s
    → n + t.incs < 2 ^ 32
    → s.cell + s.decs ≡ n + s.incs
    → t.cell + t.decs ≡ n + t.incs
Step-balance n (incr i e) h b q = omega arith
Step-balance n (enter i e) h b q = q
Step-balance n (refuse i e z) h b q = q
Step-balance n (load i e p) h b q = q
Step-balance n (fail i c e) h b q = q
Step-balance n (win i c e k) h b q = omega (arith, h i c e)

-- In every interleaving of `incr_ref` and `decr_ref` from a count of `n` in which the start and
-- the references taken stay below 2^32 together, the count and the references given back are
-- together what the start and the references taken are: no update is lost.
pub no_lost_update :
    {n : ℕ} {s : Shared} → Reach n s → n + s.incs < 2 ^ 32 → s.cell + s.decs ≡ n + s.incs
no_lost_update here b = omega arith
no_lost_update {n} (next r st) b =
    Step-balance n st (Reach-HasRead r) b (no_lost_update r (omega (arith, incs_mono st)))

abbrev Told : Shared → Type 0
Told s = s.trues ≡ (if s.cell == 0 then 1 else 0)

Step-Told : {s t : Shared} → Step s t → HasRead s → t.incs ≡ 0 → Told s → Told t
Step-Told (incr i e) h z q = absurd (omega arith)
Step-Told (enter i e) h z q = q
Step-Told (refuse i e p) h z q = q
Step-Told (load i e p) h z q = q
Step-Told (fail i c e) h z q = q
Step-Told (win i c e k) h z q = ground (arith, h i c e)

-- In every interleaving from a positive count in which no reference is taken, exactly one call
-- of `decr_ref` has answered `true` if the count is 0, and none if it is not.
pub one_true :
    {n : ℕ} {s : Shared} → Reach n s → 0 < n → s.incs ≡ 0 → s.trues ≡ (if s.cell == 0 then 1 else 0)
one_true here p z = ground arith
one_true (next r st) p z =
    Step-Told st (Reach-HasRead r) z (one_true r p (omega (arith, incs_mono st)))
