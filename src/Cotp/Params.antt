-- ===== src/Cotp/Params.antt =====
-- The parameters of a ConnectRequest: the loop of `CotpPdu::decode` over (code, length, data).
use rs_snap.Prelude.{
  ℕ, zero, suc, ◌/◌, ◌<◌, ◌≢◌, arith, ◌∷◌, length, take, drop, length-drop, get_or, ltb, leb, ◌==◌,
  ◌&&◌, if◌then◌else◌, bit_and,
}
use rs_snap.Wire.{Bytes, ok, panic, Reader}

-- The two variables that the loop sets.
pub record Tsap : Type 0 where
  pub rack : ℕ
  pub slot : ℕ

-- `if param_code == 0xC2 && param_len >= 2 { … param_data[1] … }`
abbrev pub take_tsap : Tsap → ℕ → ℕ → Bytes → Tsap
take_tsap t code len param =
    if code == 0xc2 && leb 2 len
    then record {
      rack = bit_and (get_or param 1 0 / 32) 0x07;
      slot = bit_and (get_or param 1 0) 0x1f;
    }
    else t

-- `while buf.len() >= 3`, with fuel; `panic` says that the fuel ran out.
unfoldable pub param_loop : ℕ → Tsap → Reader Tsap
param_loop zero t buf = panic
param_loop (suc fuel) t (code ∷ len ∷ next ∷ rest) =
    let buf : Bytes = next ∷ rest in
    let more = param_loop fuel (take_tsap t code len (take len buf)) (drop len buf) in
    if ltb (length buf) len then ok (t, buf) else more
param_loop (suc fuel) t buf = ok (t, buf)

-- A round takes two bytes at least.
unfoldable pub read_params : Reader Tsap
unfolding param_loop
read_params buf = param_loop (suc (length buf)) (record { rack = 0; slot = 0 }) buf

param_loop-ne-panic :
    (fuel : ℕ) (t : Tsap) (buf : Bytes) → length buf < fuel → param_loop fuel t buf ≢ panic
unfolding param_loop
param_loop-ne-panic zero t buf h = elim h [ ]
param_loop-ne-panic (suc fuel) t (code ∷ len ∷ next ∷ rest) h = ground (
  arith,
  length-drop len (next ∷ rest),
  param_loop-ne-panic fuel (take_tsap t code len (take len (next ∷ rest))) (drop len (next ∷ rest)),
)
param_loop-ne-panic (suc fuel) t _ h = λ e. cc

-- The loop ends on every input, before its fuel does.
pub read_params-ne-panic : (buf : Bytes) → read_params buf ≢ panic
unfolding read_params
read_params-ne-panic buf = param_loop-ne-panic (suc (length buf)) _ buf (omega arith)
