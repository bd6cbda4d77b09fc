-- ===== src/Hotpath/SipHash.antt =====
-- SipHash over one 64-bit word: `sip_round`, `siphash_u64` and `siphash13_u64` of
-- hotpath/src/lib.rs. `C` and `D` are the rounds per block and at the end.
use anomstream.Prelude.{ℕ, zero, suc, ◌*◌, ◌^◌}
use anomstream.Word.{wrapping_add64, rotate_left, ◌^^◌}

-- `[u64; 4]`
pub record State : Type 0 where
  pub v0 : ℕ
  pub v1 : ℕ
  pub v2 : ℕ
  pub v3 : ℕ

-- Each line of the source, in order, on the half of the state that it writes.
unfoldable pub sip_round : State → State
sip_round v =
    let a0 = wrapping_add64 v.v0 v.v1 in
    let a1 = rotate_left v.v1 13 ^^ a0 in
    let b0 = rotate_left a0 32 in
    let a2 = wrapping_add64 v.v2 v.v3 in
    let a3 = rotate_left v.v3 16 ^^ a2 in
    let c0 = wrapping_add64 b0 a3 in
    let c3 = rotate_left a3 21 ^^ c0 in
    let c2 = wrapping_add64 a2 a1 in
    let c1 = rotate_left a1 17 ^^ c2 in
    let d2 = rotate_left c2 32 in record { v0 = c0; v1 = c1; v2 = d2; v3 = c3 }

unfoldable pub rounds : ℕ → State → State
unfolding sip_round
rounds zero v = v
rounds (suc n) v = rounds n (sip_round v)

unfoldable pub absorb : ℕ → State → ℕ → State
unfolding rounds
absorb c v block =
    let w = rounds c (record v { v3 = v.v3 ^^ block }) in record w { v0 = w.v0 ^^ block }

unfoldable pub siphash_u64 : ℕ → ℕ → ℕ → ℕ → ℕ → ℕ
unfolding absorb
siphash_u64 c d k0 k1 m =
    let v : State = record {
      v0 = k0 ^^ 0x736f_6d65_7073_6575;
      v1 = k1 ^^ 0x646f_7261_6e64_6f6d;
      v2 = k0 ^^ 0x6c79_6765_6e65_7261;
      v3 = k1 ^^ 0x7465_6462_7974_6573;
    } in
    let w = absorb c (absorb c v m) (8 * 2 ^ 56) in
    let u = rounds d (record w { v2 = w.v2 ^^ 0xff }) in ((u.v0 ^^ u.v1) ^^ u.v2) ^^ u.v3

pub siphash13_u64 : ℕ → ℕ → ℕ → ℕ
unfolding siphash_u64
siphash13_u64 k0 k1 m = siphash_u64 1 3 k0 k1 m
