-- ===== src/Commands/Granted/Branches.antt =====
-- A branch is taken only with the permission that it needs.
use cos_ftp_v.Base.{
  ◌≡◌, refl, Bool, true, false, ◌&&◌, ◌||◌, List, [], ◌∷◌, arith, Bytes, codes, All,
}
use cos_ftp_v.Str.Compare.{str_equal}
use cos_ftp_v.Commands.{Client, CommandTunables, may_write}
use cos_ftp_v.Commands.Round.{
  Branch, quit, pwd, cwd, cdup, pasv, epsv, retr, noop, syst, help, list, type_, port, stor, mkd,
  rmd, dele, rest, nlst, size, abor, eprt, stru, mode, allo, feat, opts, stat, stat_file, pbsz,
  prot, user, pass, forbidden, empty_line, http_verb, unknown, unimplemented, first_of, writes,
  branches, branch_of,
}
use cos_ftp_v.Commands.Granted.{MayUpload, MayMake, MayRemove, Kept}

-- What holds of each branch that the tests lead to holds of the branch that is taken.
first_of_elim :
    (P : Branch → Type 0) (l : List (Bool × Branch)) (otherwise : Branch)
    → All (λ p. p.0 ≡ true → P p.1) l
    → P otherwise
    → P (first_of l otherwise)
first_of_elim P [] otherwise h k = k
first_of_elim P ((true, b) ∷ l) otherwise h k = h.0 refl
first_of_elim P ((false, b) ∷ l) otherwise h k = first_of_elim P l otherwise h.1 k

module _ (t : CommandTunables) (s0 : Client) (stores : Bool) where
  -- The permission that a branch needs.
  abbrev pub Needs : Branch → Type 0
  Needs quit = Unit
  Needs pwd = Unit
  Needs cwd = Unit
  Needs cdup = Unit
  Needs pasv = Unit
  Needs epsv = Unit
  Needs retr = Unit
  Needs noop = Unit
  Needs syst = Unit
  Needs help = Unit
  Needs list = Unit
  Needs type_ = Unit
  Needs port = Unit
  Needs stor = MayUpload t s0 × (stores ≡ true)
  Needs mkd = MayMake t s0
  Needs rmd = MayRemove t s0
  Needs dele = MayRemove t s0
  Needs rest = Unit
  Needs nlst = Unit
  Needs size = Unit
  Needs abor = Unit
  Needs eprt = Unit
  Needs stru = Unit
  Needs mode = Unit
  Needs allo = Unit
  Needs feat = Unit
  Needs opts = Unit
  Needs stat = Unit
  Needs stat_file = Unit
  Needs pbsz = Unit
  Needs prot = Unit
  Needs user = Unit
  Needs pass = Unit
  Needs forbidden = Unit
  Needs empty_line = Unit
  Needs http_verb = Unit
  Needs unknown = Unit
  Needs (unimplemented name) = Unit

  may_from :
      (s : Client) (anon_may b : Bool)
      → Kept t s0 s
      → (writes t s anon_may && b) ≡ true
      → writes t s0 anon_may ≡ true
  unfolding may_write
  may_from s anon_may b k = rw (k.0, k.1) (ground arith)

  last_true : (a b : Bool) → (a && b) ≡ true → b ≡ true
  last_true a b e = ground (arith, e)

  pub branch-Needs :
      (s : Client) (cmd arg : Bytes)
      → Kept t s0 s
      → (str_equal cmd (codes "STOR") ≡ true → stores ≡ true)
      → Needs (branch_of t s cmd arg)
  unfolding branch_of branches
  branch-Needs s cmd arg k is_stor =
      first_of_elim Needs (branches t s cmd arg) unknown
        (
          λ e. tt,
          (
            λ e. tt,
            (
              λ e. tt,
              (
                λ e. tt,
                (
                  λ e. tt,
                  (
                    λ e. tt,
                    (
                      λ e. tt,
                      (
                        λ e. tt,
                        (
                          λ e. tt,
                          (
                            λ e. tt,
                            (
                              λ e. tt,
                              (
                                λ e. tt,
                                (
                                  λ e. tt,
                                  (
                                    λ e. (
                                      may_from s t.tunable_anon_upload_enable
                                          (str_equal cmd (codes "STOR")) k e,
                                      is_stor (last_true _ (str_equal cmd (codes "STOR")) e),
                                    ),
                                    (
                                      λ e.
                                          may_from s t.tunable_anon_mkdir_write_enable
                                            ((str_equal cmd (codes "MKD")
                                              || str_equal cmd (codes "XMKD")))
                                            k e,
                                      (
                                        λ e.
                                            may_from s t.tunable_anon_other_write_enable
                                              ((str_equal cmd (codes "RMD")
                                                || str_equal cmd (codes "XRMD")))
                                              k e,
                                        (
                                          λ e.
                                              may_from s t.tunable_anon_other_write_enable
                                                (str_equal cmd (codes "DELE")) k e,
                                          (
                                            λ e. tt,
                                            (
                                              λ e. tt,
                                              (
                                                λ e. tt,
                                                (
                                                  λ e. tt,
                                                  (
                                                    λ e. tt,
                                                    (
                                                      λ e. tt,
                                                      (
                                                        λ e. tt,
                                                        (
                                                          λ e. tt,
                                                          (
                                                            λ e. tt,
                                                            (
                                                            λ e. tt,
                                                            (
                                                            λ e. tt,
                                                            (
                                                            λ e. tt,
                                                            (
                                                            λ e. tt,
                                                            (
                                                            λ e. tt,
                                                            (
                                                            λ e. tt,
                                                            (
                                                            λ e. tt,
                                                            (
                                                            λ e. tt,
                                                            (
                                                            λ e. tt,
                                                            (
                                                            λ e. tt,
                                                            (
                                                            λ e. tt,
                                                            (
                                                            λ e. tt,
                                                            (
                                                            λ e. tt,
                                                            (
                                                            λ e. tt,
                                                            (
                                                            λ e. tt,
                                                            (
                                                            λ e. tt,
                                                            (λ e. tt, (λ e. tt, (λ e. tt, tt))),
                                                            ),
                                                            ),
                                                            ),
                                                            ),
                                                            ),
                                                            ),
                                                            ),
                                                            ),
                                                            ),
                                                            ),
                                                            ),
                                                            ),
                                                            ),
                                                            ),
                                                            ),
                                                            ),
                                                          ),
                                                        ),
                                                      ),
                                                    ),
                                                  ),
                                                ),
                                              ),
                                            ),
                                          ),
                                        ),
                                      ),
                                    ),
                                  ),
                                ),
                              ),
                            ),
                          ),
                        ),
                      ),
                    ),
                  ),
                ),
              ),
            ),
          ),
        )
        tt
