-- ===== src/Handlers/Clamp.antt =====
-- The bounds on paging parameters (src/handlers.rs, `clamp_limit` and `clamp_offset`).
use rhel9_app_micro.Prelude.{ℕ, ◌≤◌, ◌≡◌, Option, none, some, arith}
use rhel9_app_micro.Prelude.Int.{ℤ, pos, negsuc, pos_part}
use rhel9_app_micro.Handlers.{clamp_limit, clamp_offset}

clamp_limit_number :
    (l : Option ℤ)
    → (clamp_limit l ≡ pos (pos_part (clamp_limit l)))
      × (1 ≤ pos_part (clamp_limit l))
      × (pos_part (clamp_limit l) ≤ 500)
unfolding clamp_limit
clamp_limit_number none = ground arith
clamp_limit_number (some (pos n)) = ground arith
clamp_limit_number (some (negsuc n)) = ground arith

-- Whatever the client asks for, the limit is a number from 1 to 500.
pub clamp_limit_pos : (l : Option ℤ) → (n : ℕ) × (clamp_limit l ≡ pos n) × (1 ≤ n) × (n ≤ 500)
clamp_limit_pos l = let h = clamp_limit_number l in (pos_part (clamp_limit l), h.0, h.1, h.2)

clamp_offset_number : (o : Option ℤ) → clamp_offset o ≡ pos (pos_part (clamp_offset o))
unfolding clamp_offset
clamp_offset_number none = ground arith
clamp_offset_number (some (pos n)) = ground arith
clamp_offset_number (some (negsuc n)) = ground arith

pub clamp_offset_pos : (o : Option ℤ) → (n : ℕ) × (clamp_offset o ≡ pos n)
clamp_offset_pos o = (pos_part (clamp_offset o), clamp_offset_number o)
