-- ===== src/Ctl/Tests.antt =====
-- Concrete writes to a control file, collected by the function that is called.
use libixp.Prelude.{ℕ, ◌≡◌, refl, List, [], ◌∷◌, ◌++◌, Option, none, some}
use libixp.Request.{Req}
use libixp.Samples.{zeroed, zero_req}
use libixp.Ctl.{
  ixp_srv_data2cstring, each_line, skip_newlines, skipped_bytes, cut_req, ixp_srv_writectl,
  ctl_lines,
}

abbrev two_lines : Req
two_lines = record zero_req {
  ifcall = record zeroed { count = 5; payload = b'a' ∷ b'\n' ∷ b'\n' ∷ b'b' ∷ b'\n' ∷ [] };
}

-- It collects the lines, and returns an error at a line of one byte.
abbrev collect : List (List ℕ) → List ℕ → List (List ℕ) × Option ℕ
collect ls [] = (ls ++ [] ∷ [], none)
collect ls (c ∷ []) = (ls ++ (c ∷ []) ∷ [], some c)
collect ls (c ∷ d ∷ l) = (ls ++ (c ∷ d ∷ l) ∷ [], none)

collects :
    ixp_srv_writectl two_lines collect []
    ≡ some (
      record two_lines {
        ifcall = record two_lines.ifcall { payload = b'a' ∷ 0 ∷ b'\n' ∷ b'b' ∷ 0 ∷ [] };
      },
      ((b'a' ∷ []) ∷ (b'b' ∷ []) ∷ [], some b'b'),
    )
unfolding ixp_srv_writectl ixp_srv_data2cstring ctl_lines each_line skip_newlines skipped_bytes
    cut_req
collects = refl
