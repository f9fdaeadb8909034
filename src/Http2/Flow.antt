-- ===== src/Http2/Flow.antt =====
-- The flow-control windows of http2/flow.go. `conn` is the number in the connection's flow, which
-- all its streams share, and `none` where the pointer is nil.
pub mod Windows
use fhttp.Base.{ℕ, ◌+◌, Bool, true, false, not, Option, none, some, if◌then◌else◌}
use fhttp.Base.Word.{add32, sub32}
use fhttp.Base.Int32.{signed_ltb, signed_min}

pub record Flow : Type 0 where
  pub n : ℕ
  pub conn : Option ℕ

unfoldable pub available_of : ℕ → Option ℕ → ℕ
available_of n none = n
available_of n (some c) = signed_min n c

unfoldable pub available : Flow → ℕ
unfolding available_of
available f = available_of f.n f.conn

unfoldable pub less : Option ℕ → ℕ → Option ℕ
less none n = none
less (some c) n = some (sub32 c n)

-- `none` is the panic.
unfoldable pub take : Flow → ℕ → Option Flow
unfolding less
take f n =
    if signed_ltb (available f) n
    then none
    else some (record { n = sub32 f.n n; conn = less f.conn n })

abbrev same : Bool → Bool → Bool
same true b = b
same false b = not b

unfoldable pub add : Flow → ℕ → Flow × Bool
add f n =
    let sum = add32 f.n n in
    if same (signed_ltb n sum) (signed_ltb 0 f.n) then (record f { n = sum }, true) else (f, false)
