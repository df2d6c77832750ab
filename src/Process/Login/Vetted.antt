-- ===== src/Process/Login/Vetted.antt =====
-- Whom the parent lets in, whatever arrives from the child.
use cos_ftp_v.Base.{
  ℕ, ◌≤◌, ◌≡◌, refl, sym, subst, ◌≢◌, ◌⊎◌, inl, inr, Bool, true, false, not, ◌&&◌, ◌||◌, Option, [],
  ◌∷◌, ◌++◌, arith, Bytes, ltb, ◌==◌, if◌then◌else◌, Bool-cases, length, Outcome, ok, bug, die,
  exit, fault, ◌>>=◌, >>=-eq-ok, Ends, Ends-bind,
}
use cos_ftp_v.Str.Edit.{str_contains_space, str_contains_unprintable}
use cos_ftp_v.Session.Prelogin.{is_anon}
use cos_ftp_v.Users.{cos_handle_login}
use cos_ftp_v.Process.Privsock.{Sock, octets, write_all, priv_sock_send_result}
use cos_ftp_v.Process.Privops.{
  Parent, LoginTunables, EvsfPrivopLoginResult, login_null, login_fail, login_anon, login_real,
  or_empty, answered, starts_well, setup_username_globals, handle_anonymous_login,
  handle_local_login, handle_login, noted, vsf_privop_do_login,
}
use cos_ftp_v.Process.Login.{
  LoginReq, get_login_req, Decision, refused, admitted, with_req, do_chroot_of, on_result,
  process_login_req,
}

module _ (t : LoginTunables) where
  -- A name and a password that are passed on to a check.
  pub record IsFit (user pass : Bytes) : Type 0 where
    pub named : length user ≢ 0
    pub short_user : length user ≤ 128
    pub first : starts_well user ≡ true
    pub no_space : str_contains_space user ≡ false
    pub printable : str_contains_unprintable user ≡ false
    pub short_password : length pass ≤ 128

  -- They log in as the anonymous user, which is enabled, or as a user of `login_users` with the
  -- permission that is listed there, where local logins are enabled.
  pub record IsVetted (user pass : Bytes) (anon : Bool) (permissions : ℕ) : Type 0 where
    pub fit : IsFit user pass
    pub way :
        ((anon ≡ true) × (t.tunable_anonymous_enable ≡ true) × (is_anon user ≡ true))
        ⊎ ((anon ≡ false)
            × (t.tunable_local_enable ≡ true)
            × ((before : ℕ) × (answered (cos_handle_login t.tunable_login_users user pass before)
                  ≡ (true, permissions))))

  abbrev Vets : Bytes → Bytes → EvsfPrivopLoginResult × Parent → Type 0
  Vets user pass (login_null, q) = Unit
  Vets user pass (login_fail, q) = Unit
  Vets user pass (login_anon, q) = IsVetted user pass true q.permissions
  Vets user pass (login_real, q) = IsVetted user pass false q.permissions

  setup_permissions :
      (p : Parent) (s : Bytes) → (setup_username_globals t p s).permissions ≡ p.permissions
  unfolding setup_username_globals
  setup_permissions p s = ground arith

  anonymous-Vets :
      (p : Parent) (user pass : Bytes)
      → ((n : ℕ) → IsVetted user pass true n)
      → Vets user pass (handle_anonymous_login t p pass)
  unfolding handle_anonymous_login
  anonymous-Vets p user pass h = ground (arith, h 3)

  local-Vets :
      (p : Parent) (user pass : Bytes)
      → ((n : ℕ)
          → answered (cos_handle_login t.tunable_login_users user pass p.permissions) ≡ (true, n)
          → IsVetted user pass false n)
      → Vets user pass (handle_local_login t p user pass)
  unfolding handle_local_login
  local-Vets p user pass h =
      by_answer (answered (cos_handle_login t.tunable_login_users user pass p.permissions)) h
    where
      by_answer :
          (r : Bool × ℕ)
          → ((n : ℕ) → r ≡ (true, n) → IsVetted user pass false n)
          → Vets user pass (
              if r.0
              then (login_real, setup_username_globals t (record p { permissions = r.1 }) user)
              else (login_fail, record p { permissions = r.1 }))
      by_answer (true, n) k =
          subst (IsVetted user pass false)
            (sym (setup_permissions (record p { permissions = n }) user)) (k n refl)
      by_answer (false, n) k = tt

  -- What `handle_login` does behind its checks of the two strings.
  way-Vets :
      (p : Parent) (user pass : Bytes)
      → IsFit user pass
      → Ends Unit (Vets user pass) (
          if t.tunable_anonymous_enable && is_anon user
          then ok (handle_anonymous_login t p pass)
          else (if not t.tunable_local_enable then die else ok (handle_local_login t p user pass)))
  way-Vets p user pass fit = elim (Bool-cases (t.tunable_anonymous_enable && is_anon user)) [
    | inl anon ↦ rw anon (
        anonymous-Vets p user pass
          (λ n. record { fit = fit; way = inl (refl, ground arith, ground arith) }))
    | inr real ↦ rw real (elim (Bool-cases (not t.tunable_local_enable)) [
      | inl disabled ↦ rw disabled tt
      | inr enabled ↦ rw enabled (
          local-Vets p user pass
            (λ n e. record { fit = fit; way = inr (refl, ground arith, (p.permissions, e)) }))
    ])
  ]

  handle_login-Vets :
      (p : Parent) (user pass : Bytes) → Ends Unit (Vets user pass) (handle_login t p user pass)
  unfolding handle_login
  handle_login-Vets p user pass = elim (Bool-cases (length user == 0 || ltb 128 (length user))) [
    | inl e ↦ rw e tt
    | inr sized ↦ rw sized (elim (Bool-cases (not (starts_well user))) [
      | inl e ↦ rw e tt
      | inr starts ↦
          rw starts (elim (Bool-cases (str_contains_space user || str_contains_unprintable user)) [
            | inl e ↦ rw e tt
            | inr shown ↦ rw shown (elim (Bool-cases (ltb 128 (length pass))) [
              | inl e ↦ rw e tt
              | inr short ↦ rw short (
                  way-Vets p user pass (record {
                    named = λ e. ground (arith, e);
                    short_user = ground arith;
                    first = ground arith;
                    no_space = ground arith;
                    printable = ground arith;
                    short_password = ground arith;
                  }))
            ])
          ])
    ])
  ]

  Ends-ok :
      (F : Type 0) {A : Type 0} (P : A → Type 0) (o : Outcome A) (a : A)
      → Ends F P o
      → o ≡ ok a
      → P a
  Ends-ok F P (ok b) a h e = subst P (ok_inj e) h
    where
      ok_inj : ok b ≡ ok a → b ≡ a
      ok_inj e = cc
  Ends-ok F P bug a h e = absurd cc
  Ends-ok F P die a h e = absurd cc
  Ends-ok F P (exit n) a h e = absurd cc
  Ends-ok F P fault a h e = absurd cc

  -- What a verdict says of a request.
  abbrev Lets : LoginReq → Decision → Type 0
  Lets req (refused p) = Unit
  Lets req (admitted p do_chroot anon) = IsVetted req.user_str req.password_str anon p.permissions

  do_login-Vets :
      (p : Parent) (pass : Bytes)
      → Ends Unit (λ d. Vets p.user_str pass d.0) (vsf_privop_do_login t p pass)
  unfolding vsf_privop_do_login
  do_login-Vets p pass =
      Ends-bind Unit (Vets p.user_str pass) (λ d. Vets p.user_str pass d.0)
        (handle_login t p p.user_str pass) (λ r. ok (r, noted t r.0))
        (handle_login-Vets p p.user_str pass) (λ r h. h)

  send_result-Ends :
      (n : ℕ) (k : Sock) (P : Sock → Type 0)
      → ((k1 : Sock) → P k1)
      → Ends Unit P (priv_sock_send_result n k)
  unfolding priv_sock_send_result write_all
  send_result-Ends n k P h = ground (arith, h (record k { sent = k.sent ++ octets (n ∷ []) }))

  do_chroot-Ends :
      (chroot_list : Option Bytes) (user : Bytes)
      → Ends Unit (λ b. Unit) (do_chroot_of t chroot_list user)
  unfolding do_chroot_of
  do_chroot-Ends chroot_list user = ground arith

  on_result-Lets :
      (chroot_list : Option Bytes) (req : LoginReq) (d : EvsfPrivopLoginResult × Parent) (k : Sock)
      → Vets req.user_str req.password_str d
      → Ends Unit (λ v. Lets req v.0) (on_result t chroot_list d k)
  unfolding on_result
  on_result-Lets chroot_list req (login_null, q) k h = tt
  on_result-Lets chroot_list req (login_fail, q) k h =
      Ends-bind Unit (λ k1. Unit) (λ v. Lets req v.0) (priv_sock_send_result 2 k)
        (λ k1. ok (refused q, k1)) (send_result-Ends 2 k (λ k1. Unit) (λ k1. tt)) (λ k1 u. tt)
  on_result-Lets chroot_list req (login_anon, q) k h =
      Ends-bind Unit (λ k1. Unit) (λ v. Lets req v.0) (priv_sock_send_result 1 k)
        (λ k1.
          ok (admitted (record q { user_str = or_empty t.tunable_ftp_username }) true true, k1))
        (send_result-Ends 1 k (λ k1. Unit) (λ k1. tt)) (λ k1 u. h)
  on_result-Lets chroot_list req (login_real, q) k h =
      Ends-bind Unit (λ b. Unit) (λ v. Lets req v.0) (do_chroot_of t chroot_list q.user_str)
        (λ do_chroot. priv_sock_send_result 1 k >>= (λ k1. ok (admitted q do_chroot false, k1)))
        (do_chroot-Ends chroot_list q.user_str)
        (λ do_chroot u.
          Ends-bind Unit (λ k1. Unit) (λ v. Lets req v.0) (priv_sock_send_result 1 k)
            (λ k1. ok (admitted q do_chroot false, k1))
            (send_result-Ends 1 k (λ k1. Unit) (λ k1. tt)) (λ k1 w. h))

  served-Lets :
      (chroot_list : Option Bytes) (p : Parent) (req : LoginReq) (k : Sock)
      → Ends Unit
          (λ v. Lets req v.0)
          (vsf_privop_do_login t (with_req t req p) req.password_str
            >>= (λ d. on_result t chroot_list d.0 k))
  unfolding with_req
  served-Lets chroot_list p req k =
      Ends-bind Unit (λ d. Vets req.user_str req.password_str d.0) (λ v. Lets req v.0)
        (vsf_privop_do_login t (with_req t req p) req.password_str)
        (λ d. on_result t chroot_list d.0 k) (do_login-Vets (with_req t req p) req.password_str)
        (λ d h. on_result-Lets chroot_list req d.0 k h)

  -- Whatever bytes arrive from the child, when the parent admits a login it has read a request with
  -- a name and a password that fit, and the login is anonymous, which is enabled, or that of a
  -- listed user with the permission that is listed, and local logins are enabled.
  pub process_login_req-IsVetted :
      (chroot_list : Option Bytes) (k : Sock) (p : Parent) (v : Decision × Sock)
      → process_login_req t chroot_list k p ≡ ok v
      → (r : LoginReq × Sock) × (get_login_req k ≡ ok r) × Lets r.0 v.0
  unfolding process_login_req
  process_login_req-IsVetted chroot_list k p v e =
      let (r, later, read) =
        >>=-eq-ok (get_login_req k)
          (λ r.
            vsf_privop_do_login t (with_req t r.0 p) r.0.password_str
            >>= (λ d. on_result t chroot_list d.0 r.1))
          e in
      (r, read, Ends-ok Unit (λ v. Lets r.0 v.0) _ v (served-Lets chroot_list p r.0 r.1) later)
