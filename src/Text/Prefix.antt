-- ===== src/Text/Prefix.antt =====
-- What `strip_prefix` returns.
use Prim.Native.String.{[], ◌∷◌}
use text.Mathlib.TextLemmas.{nil-append, cons-append}
use rhel9_app_micro.Prelude.{String, ◌<>◌, ◌≡◌, some, arith}
use rhel9_app_micro.Text.{strip_prefix}

pub strip_prefix-append : (p s : String) → strip_prefix p (p <> s) ≡ some s
unfolding strip_prefix
strip_prefix-append [] s = rw nil-append
strip_prefix-append (c ∷ p) s = rw cons-append (ground (arith, strip_prefix-append p s))
