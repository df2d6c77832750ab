-- ===== src/Commands/Granted/Answers.antt =====
-- The commands that only answer keep a session in order.
use cos_ftp_v.Base.{Bool, List, [], ◌∷◌, map, arith, Bytes, codes, if_elim, All, All-append}
use cos_ftp_v.Str.Compare.{str_equal}
use cos_ftp_v.Str.Edit.{str_upper}
use cos_ftp_v.Session.{Doing, Turn, going, gone, logged_in}
use cos_ftp_v.Commands.{Client, CommandTunables, said, write, write_raw}
use cos_ftp_v.Commands.Replies.{
  handle_help, handle_stat, stat_texts, handle_logged_in_user, handle_logged_in_pass, handle_stru,
  handle_mode, handle_turn,
}
use cos_ftp_v.Commands.Granted.{Granted, Idle}
use cos_ftp_v.Commands.Granted.Files.{Does}

module _ (t : CommandTunables) (s0 : Client) (stores : Bool) (B : Type 0) where
  pub All-said : (l : List Doing) → All (Granted t s0 stores) (map said l)
  All-said [] = tt
  All-said (d ∷ l) = (tt, All-said l)

  pub handle_turn-Does :
      (s : Client) (turn : Turn) → Idle t s0 s → Does t s0 stores B (handle_turn s turn)
  handle_turn-Does s (did, going s1) k = (All-said did, k)
  handle_turn-Does s (did, gone n) k = (All-said did, tt)
  handle_turn-Does s (did, logged_in) k = (All-said did, k)

  -- The commands that only answer.
  pub user-Does :
      (s : Client) (arg : Bytes) → Idle t s0 s → Does t s0 stores B (handle_logged_in_user s arg)
  unfolding handle_logged_in_user
  user-Does s arg k =
      if_elim (Does t s0 stores B) s.is_anonymous _ _ (λ e. ((tt, tt), k))
        (λ e.
          if_elim (Does t s0 stores B) (str_equal s.user_str arg) _ _ (λ e. ((tt, tt), k))
            (λ e. ((tt, tt), k)))

  pub stru-Does : (s : Client) (arg : Bytes) → Idle t s0 s → Does t s0 stores B (handle_stru s arg)
  unfolding handle_stru
  stru-Does s arg k =
      if_elim (Does t s0 stores B) (str_equal (str_upper arg) (codes "F")) _ _ (λ e. ((tt, tt), k))
        (λ e. ((tt, tt), k))

  pub mode-Does : (s : Client) (arg : Bytes) → Idle t s0 s → Does t s0 stores B (handle_mode s arg)
  unfolding handle_mode
  mode-Does s arg k =
      if_elim (Does t s0 stores B) (str_equal (str_upper arg) (codes "S")) _ _ (λ e. ((tt, tt), k))
        (λ e. ((tt, tt), k))

  pub help-Does : (s : Client) → Idle t s0 s → Does t s0 stores B (handle_help s)
  unfolding handle_help
  help-Does s k = (ground arith, k)

  All-raw : (l : List Bytes) → All (Granted t s0 stores) (map write_raw l)
  All-raw [] = tt
  All-raw (text ∷ l) = (tt, All-raw l)

  pub stat-Does : (s : Client) → Idle t s0 s → Does t s0 stores B (handle_stat t s)
  unfolding handle_stat
  stat-Does s k = (
    (
      tt,
      All-append (Granted t s0 stores) (map write_raw (stat_texts t s))
          (write 211 (codes "End of status") ∷ []) (All-raw (stat_texts t s)) (tt, tt),
    ),
    k,
  )

  pub pass-Does : (s : Client) → Idle t s0 s → Does t s0 stores B (handle_logged_in_pass s)
  unfolding handle_logged_in_pass
  pass-Does s k = ((tt, tt), k)
