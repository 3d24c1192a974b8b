-- ===== src/Client/Files.antt =====
-- lib/libixp/client.c: walk, and the operations on a path.
use libixp.Prelude.{
  ℕ, ◌+◌, ◌-◌, ◌%◌, ◌^◌, Bool, true, false, not, ◌&&◌, ◌||◌, List, [], ◌∷◌, ◌++◌, Option, none,
  some, get_or, map, drop, length, ◌==◌, ltb, if◌then◌else◌,
}
use libixp.Wire.Types.{Fcall}
use libixp.Ctl.{c_string}
use libixp.Tokens.{Tokenized, ixp_tokenize}
use libixp.Client.{CFid, Client, getfid, putfid, dofcall}

-- The strings at the pointers, and what the array held behind them.
abbrev pub names : List (List ℕ) → Tokenized → List (List ℕ)
names old t = map (λ i. c_string (drop i t.str)) t.tokens ++ drop (length t.tokens) old

abbrev pub nonempty_path : List ℕ → Bool
nonempty_path [] = false
nonempty_path (c ∷ s) = true

-- `while(*p == '/') *p-- = 0` from the end.
unfoldable pub strip_end : List ℕ → List ℕ
strip_end [] = []
strip_end (c ∷ s) =
    let rest = strip_end s in if not (nonempty_path rest) && (c == b'/') then [] else c ∷ rest

-- The path before its last slash and the name behind it, if there is one.
abbrev pub behind : ℕ → List ℕ → Option (List ℕ × List ℕ) → Option (List ℕ × List ℕ)
behind c s none = if c == b'/' then some ([], s) else none
behind c s (some (dir, name)) = some (c ∷ dir, name)

unfoldable pub split_dir : List ℕ → Option (List ℕ × List ℕ)
split_dir [] = none
split_dir (c ∷ s) = behind c s (split_dir s)

module _ {W : Type 0} (rpc : Fcall → W → Option Fcall × W) where
  -- The end of walk, by the answer; `n` is the number of names.
  unfoldable pub walked_to : ℕ → CFid → Option Fcall × Client W → Option CFid × Client W
  unfolding putfid
  walked_to n f (none, c) = (none, putfid f c)
  walked_to n f (some r, c) =
      if ltb r.nwqid n
      then (none, putfid f c)
      else if ltb 0 n
      then (some (record f { qid = get_or r.wqid (n - 1) f.qid }), c)
      else (some f, c)

  -- The request of walk to a fid that getfid gave; RootFid is 1, TWalk 110.
  unfoldable pub walk_call : Fcall → Tokenized → CFid × Client W → Option CFid × Client W
  unfolding walked_to
  walk_call stack t (f, c) =
      let n = length t.tokens in
      walked_to n f (
        dofcall rpc
          (record stack {
            type = 110;
            fid = 1;
            nwname = n;
            wname = names stack.wname t;
            newfid = f.fid;
          })
          c)

  unfoldable pub walk : Fcall → List ℕ → Client W → Option CFid × Client W
  unfolding walk_call
  walk stack path c = walk_call stack (ixp_tokenize 16 path b'/') (getfid c)

  -- The fid or nil, the name that `rest` points to, and the client; `none` is an access before the
  -- path's start, or a failed assertion.
  abbrev pub Walked : Type 0
  Walked = Option (Option CFid × List ℕ × Client W)

  abbrev pub named : List ℕ → Option CFid × Client W → Walked
  named name (f, c) = some (f, name, c)

  unfoldable pub walk_split : Fcall → Client W → Option (List ℕ × List ℕ) → Walked
  walk_split stack c none = some (none, [], c)
  walk_split stack c (some (dir, name)) = named name (walk stack dir c)

  unfoldable pub walkdir : Fcall → List ℕ → Client W → Walked
  unfolding walk_split strip_end split_dir
  walkdir stack path c =
      let stripped = strip_end path in
      if nonempty_path stripped then walk_split stack c (split_dir stripped) else none

  -- TClunk is 120.
  unfoldable pub clunk_reply : CFid → Option Fcall × Client W → Bool × Client W
  clunk_reply f (none, c) = (false, c)
  clunk_reply f (some r, c) = (true, putfid f c)

  unfoldable pub clunk : Fcall → CFid → Client W → Bool × Client W
  unfolding clunk_reply
  clunk stack f c = clunk_reply f (dofcall rpc (record stack { type = 120; fid = f.fid }) c)

  unfoldable pub ixp_close : Fcall → CFid → Client W → Bool × Client W
  ixp_close stack f c = clunk stack f c

  -- TRemove is 122.
  unfoldable pub removed : CFid → Option Fcall × Client W → Bool × Client W
  removed f (none, c) = (false, putfid f c)
  removed f (some r, c) = (true, putfid f c)

  unfoldable pub remove_at : Fcall → Option CFid × Client W → Bool × Client W
  unfolding removed
  remove_at stack (none, c) = (false, c)
  remove_at stack (some f, c) = removed f (dofcall rpc (record stack { type = 122; fid = f.fid }) c)

  unfoldable pub ixp_remove : Fcall → List ℕ → Client W → Bool × Client W
  unfolding remove_at
  ixp_remove stack path c = remove_at stack (walk stack path c)

  -- `f->client->msize-24` is a `uint`.
  unfoldable pub initfid : ℕ → CFid → Fcall → CFid
  initfid msize f r =
      let most = (msize + 2 ^ 32 - 24) % 2 ^ 32 in
      record f {
        is_open = true;
        offset = 0;
        iounit = if (r.iounit == 0) || ltb most r.iounit then most else r.iounit;
        qid = r.qid;
      }

  -- The end of ixp_open and ixp_create, by the answer.
  unfoldable pub opened : Fcall → ℕ → CFid → Option Fcall × Client W → Option CFid × Client W
  unfolding initfid
  opened stack mode f (none, c) = (none, (clunk stack f c).1)
  opened stack mode f (some r, c) = (some (record (initfid c.msize f r) { mode = mode }), c)

  -- TCreate is 114.
  unfoldable pub create_at : Fcall → ℕ → ℕ → Walked → Option (Option CFid × Client W)
  unfolding opened
  create_at stack perm mode none = none
  create_at stack perm mode (some (none, name, c)) = some (none, c)
  create_at stack perm mode (some (some f, name, c)) = some (
      opened stack mode f (
        dofcall rpc
          (record stack { type = 114; fid = f.fid; name = name; perm = perm; mode = mode }) c))

  unfoldable pub ixp_create : Fcall → List ℕ → ℕ → ℕ → Client W → Option (Option CFid × Client W)
  unfolding create_at
  ixp_create stack path perm mode c = create_at stack perm mode (walkdir stack path c)

  -- TOpen is 112.
  unfoldable pub open_at : Fcall → ℕ → Option CFid × Client W → Option CFid × Client W
  unfolding opened
  open_at stack mode (none, c) = (none, c)
  open_at stack mode (some f, c) =
      opened stack mode f (dofcall rpc (record stack { type = 112; fid = f.fid; mode = mode }) c)

  unfoldable pub ixp_open : Fcall → List ℕ → ℕ → Client W → Option CFid × Client W
  unfolding open_at
  ixp_open stack path mode c = open_at stack mode (walk stack path c)
