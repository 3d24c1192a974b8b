-- ===== src/Wire/Types.antt =====
-- IxpQid, IxpStat, IxpFcall and enum IxpFType (include/ixp.h).
use libixp.Prelude.{ℕ, List, ◌==◌, if◌then◌else◌}

-- The private member `dir_type`, which no code of the library uses, is left out.
pub record Qid : Type 0 where
  pub type : ℕ
  pub version : ℕ
  pub path : ℕ

pub record Stat : Type 0 where
  pub type : ℕ
  pub dev : ℕ
  pub qid : Qid
  pub mode : ℕ
  pub atime : ℕ
  pub mtime : ℕ
  pub length : ℕ
  pub name : List ℕ
  pub uid : List ℕ
  pub gid : List ℕ
  pub muid : List ℕ

-- The members of the union stand side by side; those of one struct type are one field. The code
-- reads only the member that `hdr.type` selects. `payload` is IxpFIO's `data`, and `wname` and
-- `wqid` are arrays of IXP_MAX_WELEM elements.
pub record Fcall : Type 0 where
  pub type : ℕ
  pub tag : ℕ
  pub fid : ℕ
  pub msize : ℕ
  pub version : List ℕ
  pub oldtag : ℕ
  pub ename : List ℕ
  pub qid : Qid
  pub iounit : ℕ
  pub aqid : Qid
  pub afid : ℕ
  pub uname : List ℕ
  pub aname : List ℕ
  pub perm : ℕ
  pub name : List ℕ
  pub mode : ℕ
  pub newfid : ℕ
  pub nwname : ℕ
  pub wname : List (List ℕ)
  pub nwqid : ℕ
  pub wqid : List Qid
  pub offset : ℕ
  pub count : ℕ
  pub payload : List ℕ
  pub nstat : ℕ
  pub stat : List ℕ
  pub twstat : Stat

-- The labels of the switches on `hdr.type`; `unknown` is `default`, and t_error is never sent.
pub data FType : Type 0 where
  t_version r_version t_auth r_auth t_attach r_attach t_error r_error : FType
  t_flush r_flush t_walk r_walk t_open r_open t_create r_create : FType
  t_read r_read t_write r_write t_clunk r_clunk t_remove r_remove : FType
  t_stat r_stat t_wstat r_wstat unknown : FType

-- The labels P9_TVersion = 100 up to P9_RWStat = 127.
abbrev pub number : FType → ℕ
number t_version = 100
number r_version = 101
number t_auth = 102
number r_auth = 103
number t_attach = 104
number r_attach = 105
number t_error = 106
number r_error = 107
number t_flush = 108
number r_flush = 109
number t_walk = 110
number r_walk = 111
number t_open = 112
number r_open = 113
number t_create = 114
number r_create = 115
number t_read = 116
number r_read = 117
number t_write = 118
number r_write = 119
number t_clunk = 120
number r_clunk = 121
number t_remove = 122
number r_remove = 123
number t_stat = 124
number r_stat = 125
number t_wstat = 126
number r_wstat = 127
number unknown = 0

requests : ℕ → FType
requests n =
    if n == 100
    then t_version
    else if n == 102
    then t_auth
    else if n == 104
    then t_attach
    else if n == 106
    then t_error
    else if n == 108
    then t_flush
    else if n == 110
    then t_walk
    else if n == 112
    then t_open
    else if n == 114
    then t_create
    else if n == 116
    then t_read
    else if n == 118
    then t_write
    else if n == 120
    then t_clunk
    else if n == 122
    then t_remove
    else if n == 124
    then t_stat
    else if n == 126
    then t_wstat
    else unknown

responses : ℕ → FType
responses n =
    if n == 101
    then r_version
    else if n == 103
    then r_auth
    else if n == 105
    then r_attach
    else if n == 107
    then r_error
    else if n == 109
    then r_flush
    else if n == 111
    then r_walk
    else if n == 113
    then r_open
    else if n == 115
    then r_create
    else if n == 117
    then r_read
    else if n == 119
    then r_write
    else if n == 121
    then r_clunk
    else if n == 123
    then r_remove
    else if n == 125
    then r_stat
    else if n == 127
    then r_wstat
    else unknown

-- The label that a value of `hdr.type` selects.
unfoldable pub ftype : ℕ → FType
unfolding requests responses
ftype n = elim (requests n) [ unknown ↦ responses n | t ↦ t ]
