-- ===== src/Commands/Answered/Rounds.antt =====
-- The replies of whole sessions.
use cos_ftp_v.Base.{
  ℕ, ◌+◌, ◌≤◌, ◌≡◌, false, ◌&&◌, List, [], ◌∷◌, Bytes, if◌then◌else◌, ok, bug, die, exit, fault,
}
use cos_ftp_v.Str.Edit.{is_empty}
use cos_ftp_v.Commands.{Client, Host, Act, Run}
use cos_ftp_v.Commands.Data.{CLibrary}
use cos_ftp_v.Commands.Convert.{cos_conv_gbk_2_utf}
use cos_ftp_v.Commands.Answered.{is_reply}

abbrev pub replies : List Act → ℕ
replies [] = 0
replies (act ∷ did) = (if is_reply act then 1 else 0) + replies did

-- What a run that returns has written.
abbrev Writes : ℕ → Run Client → Type 0
Writes n (did, ok s) = n ≤ replies did
Writes n (did, bug) = Unit
Writes n (did, fault) = Unit
Writes n (did, die) = Unit
Writes n (did, exit k) = Unit

-- A line that is not empty once its argument is converted.
abbrev pub HasText : CLibrary → Host × Bytes × Bytes → Type 0
HasText c (h, cmd, arg) = (is_empty cmd && is_empty (cos_conv_gbk_2_utf c arg).1) ≡ false

-- A session that goes on has written so many replies; it may end, but not in a `bug` or a fault.
abbrev pub Served : ℕ → Run Client → Type 0
Served n (did, ok s) = n ≤ replies did
Served n (did, bug) = ⊥
Served n (did, fault) = ⊥
Served n (did, die) = Unit
Served n (did, exit k) = Unit
