-- ===== src/Ctl.antt =====
-- lib/libixp/srv_util.c: ixp_srv_data2cstring and ixp_srv_writectl, the lines of a control file.
pub mod Lines
mod Tests
use libixp.Prelude.{
  ℕ, zero, suc, ◌+◌, ◌-◌, Bool, true, false, ◌&&◌, not, List, [], ◌∷◌, ◌++◌, Option, none, some,
  length, take, drop, get_or, leb, ◌==◌, if◌then◌else◌,
}
use libixp.Request.{Req}

-- The length without the newline at the end.
unfoldable pub chomped : List ℕ → ℕ → ℕ
chomped p i = if not (i == 0) && (get_or p (i - 1) 0 == b'\n') then i - 1 else i

-- memchr for nul in the first `i` bytes: its index, or `i`.
unfoldable pub nul_index : List ℕ → ℕ → ℕ
nul_index p zero = zero
nul_index [] (suc i) = suc i
nul_index (c ∷ p) (suc i) = let rest = nul_index p i in if c == 0 then zero else suc rest

-- `none` is an access outside the data.
unfoldable pub ixp_srv_data2cstring : Req → Option Req
unfolding chomped nul_index
ixp_srv_data2cstring req =
    let p = req.ifcall.payload in
    let i = nul_index p (chomped p req.ifcall.count) in
    if leb req.ifcall.count (length p)
    then some (record req { ifcall = record req.ifcall { payload = take i p ++ 0 ∷ [] } })
    else none

-- The bytes that a `char*` reaches before its nul.
unfoldable pub c_string : List ℕ → List ℕ
c_string [] = []
c_string (c ∷ s) = let rest = c_string s in if c == 0 then [] else c ∷ rest

-- `s = fn(...); if(s) err = s`
abbrev pub latest {κ} : {E : Type κ} → Option E → Option E → Option E
latest err none = err
latest err (some e) = some e

unfoldable mutual
  -- The bytes that the loop leaves from `s` on: newlines that are skipped stay.
  pub skipped_bytes : List ℕ → List ℕ
  skipped_bytes [] = []
  skipped_bytes (c ∷ s) =
      let skip = skipped_bytes s in
      let start = line_bytes s in if c == b'\n' then c ∷ skip else c ∷ start

  -- `*p = '\0'` at the end of a line.
  pub line_bytes : List ℕ → List ℕ
  line_bytes [] = []
  line_bytes (c ∷ s) =
      let next = skipped_bytes s in
      let more = line_bytes s in if c == b'\n' then 0 ∷ next else c ∷ more

-- The request with the stores of the loop in its data.
unfoldable pub cut_req : Req → Req
unfolding c_string skipped_bytes
cut_req req =
    let p = req.ifcall.payload in
    let text = c_string p in
    record req {
      ifcall = record req.ifcall { payload = skipped_bytes text ++ drop (length text) p };
    }

-- `fn` acts on a state of the caller's with `file->p` and a line, and may return an error.
module _ {ℓ κ} {S : Type ℓ} {E : Type κ} where
  abbrev pub call : (S → List ℕ → S × Option E) → List ℕ → S × Option E → S × Option E
  call fn line (σ, err) = let r = fn σ line in (r.0, latest err r.1)

  unfoldable mutual
    -- `while(*s == '\n') s++`, on the string from `s` on
    pub skip_newlines : (S → List ℕ → S × Option E) → List ℕ → S × Option E → S × Option E
    skip_newlines fn [] r = call fn [] r
    skip_newlines fn (c ∷ s) r =
        let skip = skip_newlines fn s r in
        let start = take_line fn (c ∷ []) s r in if c == b'\n' then skip else start

    -- The search for the end `p` of the line, of which `line` are the bytes so far, and the call.
    pub take_line : (S → List ℕ → S × Option E) → List ℕ → List ℕ → S × Option E → S × Option E
    take_line fn line [] r = call fn line r
    take_line fn line (c ∷ s) r =
        let next = skip_newlines fn s (call fn line r) in
        let more = take_line fn (line ++ c ∷ []) s r in if c == b'\n' then next else more

  -- `while(c != '\0')`, entered with the first byte of the string
  unfoldable pub each_line : (S → List ℕ → S × Option E) → List ℕ → S × Option E → S × Option E
  unfolding skip_newlines
  each_line fn [] r = r
  each_line fn (c ∷ s) r = skip_newlines fn (c ∷ s) r

  -- After ixp_srv_data2cstring.
  unfoldable pub ctl_lines :
      (S → List ℕ → S × Option E) → S → Option Req → Option (Req × (S × Option E))
  unfolding each_line c_string cut_req
  ctl_lines fn σ none = none
  ctl_lines fn σ (some req) =
      some (cut_req req, each_line fn (c_string req.ifcall.payload) (σ, none))

  unfoldable pub ixp_srv_writectl :
      Req → (S → List ℕ → S × Option E) → S → Option (Req × (S × Option E))
  unfolding ctl_lines
  ixp_srv_writectl req fn σ = ctl_lines fn σ (ixp_srv_data2cstring req)
