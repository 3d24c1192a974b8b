-- ===== src/Client/Stats.antt =====
-- lib/libixp/client.c: the stat of a file.
use libixp.Prelude.{ℕ, List, Option, none, some, ltb, if◌then◌else◌}
use libixp.Wire.Types.{Stat, Fcall}
use libixp.Wire.Msg.{Msg, ixp_message, msg_unpack}
use libixp.Wire.Convert.{ixp_pstat}
use libixp.Client.{CFid, Client, dofcall}
use libixp.Client.Files.{walk, clunk}

module _ {W : Type 0} (rpc : Fcall → W → Option Fcall × W) where
  -- What ixp_pstat reads of the bytes of an answer; `fresh` is what malloc gives. TStat is 124.
  unfoldable pub stat_of : Option (Stat × Msg) → Option (Option Stat)
  stat_of none = none
  stat_of (some (s, m)) = some (if ltb m.end m.pos then none else some s)

  abbrev pub with_client : Client W → Option (Option Stat) → Option (Option Stat × Client W)
  with_client c none = none
  with_client c (some s) = some (s, c)

  unfoldable pub read_stat : Stat → Option Fcall × Client W → Option (Option Stat × Client W)
  unfolding stat_of
  read_stat fresh (none, c) = some (none, c)
  read_stat fresh (some r, c) =
      with_client c (stat_of (ixp_pstat fresh (ixp_message r.stat r.nstat msg_unpack)))

  unfoldable pub _stat : Fcall → Stat → ℕ → Client W → Option (Option Stat × Client W)
  unfolding read_stat
  _stat stack fresh fid c = read_stat fresh (dofcall rpc (record stack { type = 124; fid = fid }) c)

  abbrev pub clunk_after :
      Fcall → CFid → Option (Option Stat × Client W) → Option (Option Stat × Client W)
  clunk_after stack f none = none
  clunk_after stack f (some (s, c)) = some (s, (clunk rpc stack f c).1)

  unfoldable pub stat_at : Fcall → Stat → Option CFid × Client W → Option (Option Stat × Client W)
  stat_at stack fresh (none, c) = some (none, c)
  stat_at stack fresh (some f, c) = clunk_after stack f (_stat stack fresh f.fid c)

  unfoldable pub ixp_stat : Fcall → Stat → List ℕ → Client W → Option (Option Stat × Client W)
  unfolding stat_at
  ixp_stat stack fresh path c = stat_at stack fresh (walk rpc stack path c)

  unfoldable pub ixp_fstat : Fcall → Stat → CFid → Client W → Option (Option Stat × Client W)
  ixp_fstat stack fresh f c = _stat stack fresh f.fid c
