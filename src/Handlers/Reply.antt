-- ===== src/Handlers/Reply.antt =====
-- What a handler writes: a redirect, a page with its status, or a plain error, and the session
-- cookie. Texts of the interface are their catalog keys.
use xal_tor_ka.Base.{ℕ, String}

-- The error that an edit of the administration returns: a fixed text; a text with a quoted value
-- (its %q) in the middle; or the error of the disk or of the proxy, whose text is not modelled.
pub data Refusal : Type 0 where
  said : String → Refusal
  quoting : String → String → String → Refusal
  failed_outside : Refusal

pub data Page : Type 0 where
  login_page : String → String → Page
  totp_page : String → String → Page
  code_request_page : String → Page
  code_verify_page : String → String → String → Page
  forbidden_admin_page : String → Page
  error_page : String → Page
  refusal_page : Refusal → Page
  admin_qr_page : String → String → Page
  setup_cred_page : String → String → String → Page
  setup_totp_page : String → String → String → Page
  setup_done_page : String → Page
  profile_qr_page : String → Page

-- http.Redirect (303), and a page with its status
pub data Reply : Type 0 where
  redirect : String → Reply
  page : ℕ → Page → Reply

pub data Cookie : Type 0 where
  kept : Cookie
  set_session : String → Cookie
  clear_session : Cookie

pub record Response : Type 0 where
  pub reply : Reply
  pub cookie : Cookie

abbrev pub answer : Reply → Response
answer r = record { reply = r; cookie = kept }
