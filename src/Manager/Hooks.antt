-- ===== src/Manager/Hooks.antt =====
-- backend/service/manager.go: the hooks, `fireHooks`, `hookMatches` and `runHook`, and the
-- notification of `notifyIssuance`. What is run in a goroutine of its own is recorded.
use cert_vault.Prelude.{
  ℕ, ◌*◌, ◌||◌, ◌&&◌, String, Bool, true, false, not, Option, none, some, List, [], ◌∷◌, ◌++◌, map,
  ℤ, pos, is_zero, ltb, leb, ◌==◌, if◌then◌else◌, contains, select,
}
use cert_vault.Prelude.Outcome.{Outcome, ok, err}
use cert_vault.Database.{second}
use cert_vault.Config.{Hook}
use cert_vault.Artifacts.{Bytes}
use cert_vault.Manager.{Manager, World, Payload, Notice, around, initial}

abbrev is_none : List String → Bool
is_none [] = true
is_none (s ∷ strings) = false

-- `hookMatches`
unfoldable pub hook_matches : (event name : String) → Hook → Bool
unfolding contains
hook_matches event name h =
    contains h.events event && (is_none h.certificates || contains h.certificates name)

-- `fireHooks`, without the id and the time of the payload
unfoldable pub fire_hooks : Manager → Payload → World → World
unfolding hook_matches select
fire_hooks m payload w = record w {
  fired =
      w.fired
      ++ map (λ (h : Hook). (h, payload))
          (select (hook_matches payload.event payload.certificate) m.config.hooks);
}

pub record Request : Type 0 where
  pub url : String
  pub body : Bytes
  pub signature : Option String  -- the header X-CertVault-Signature-256
  pub timeout : ℤ

pub record Command : Type 0 where
  pub path : String
  pub args : List String
  pub path_variable : String
  pub event_json : Bytes
  pub timeout : ℤ

pub data Delivery : Type 0 where
  undelivered : Delivery
  requested : Request → Delivery
  executed : Command → Delivery

-- net/http, os, crypto/hmac with encoding/hex, and os/exec
pub record Transport : Type 0 where
  pub check_url : String → Outcome String (Unit {0})
  pub read_secret : String → Outcome String Bytes
  pub trim_space : Bytes → Bytes
  pub hmac : (key body : Bytes) → String
  pub send : Request → Outcome String (ℕ × String)  -- the status code, and the status as a text
  pub run : Command → Outcome String (Unit {0})

abbrev timeout_of : Hook → ℤ
timeout_of h = if is_zero h.timeout then pos (15 * second) else h.timeout

abbrev http_error : Outcome String (ℕ × String) → Option String
http_error (ok (status, text)) =
    if ltb status 200 || leb 300 status then some (Prim.Native.String.◌++◌ "HTTP " text) else none
http_error (err message) = some message

abbrev exec_error : Outcome String (Unit {0}) → Option String
exec_error (ok u) = none
exec_error (err message) = some message

module _ (t : Transport) where
  unfoldable pub signature_of : Hook → Bytes → Outcome String (Option String)
  signature_of h body =
      if h.secret_file == "" then ok none else elim (t.read_secret h.secret_file) [
        | ok secret ↦
            ok (some (Prim.Native.String.◌++◌ "sha256=" (t.hmac (t.trim_space secret) body)))
        | err message ↦ err message
      ]

  unfoldable pub send_signed :
      Hook → Bytes → Outcome String (Option String) → Delivery × Option String
  send_signed h body (err message) = (undelivered, some message)
  send_signed h body (ok signature) =
      let request : Request = record {
        url = h.url;
        body = body;
        signature = signature;
        timeout = timeout_of h;
      } in
      (requested request, http_error (t.send request))

  unfoldable pub run_webhook : Hook → Bytes → Outcome String (Unit {0}) → Delivery × Option String
  unfolding send_signed signature_of
  run_webhook h body (err message) = (undelivered, some message)
  run_webhook h body (ok u) = send_signed h body (signature_of h body)

  unfoldable pub run_command : Hook → Bytes → Delivery × Option String
  run_command h body =
      let command : Command = record {
        path = h.command;
        args = h.args;
        path_variable = "/usr/local/bin:/usr/bin:/bin";
        event_json = body;
        timeout = timeout_of h;
      } in
      (executed command, exec_error (t.run command))

  -- `runHook`: what is done, and the error that is logged
  unfoldable pub run_hook : Hook → Bytes → Delivery × Option String
  unfolding run_webhook run_command
  run_hook h body =
      if h.kind == "webhook"
      then run_webhook h body (t.check_url h.url)
      else if h.kind == "exec"
      then run_command h body
      else (undelivered, some "unknown hook type")

abbrev notice_of : Manager → (name kind : String) → Option String → Notice
notice_of m name kind (some message) = record {
  title = "Certificate issuance failed";
  body =
      Prim.Native.String.◌++◌ "Certificate "
        (around (m.quote name) " could not be issued: " message);
  kind = "failure";
}
notice_of m name kind none =
    if kind == initial
    then record {
      title = "Certificate issued";
      body = around "Certificate " (m.quote name) " was issued successfully.";
      kind = "success";
    }
    else record {
      title = "Certificate renewed";
      body = around "Certificate " (m.quote name) " was renewed successfully.";
      kind = "success";
    }

-- `notifyIssuance`
unfoldable pub notify_issuance : Manager → (name kind : String) → Option String → World → World
notify_issuance m name kind error w =
    if not m.notifies
    then w
    else record w { notices = w.notices ++ notice_of m name kind error ∷ [] }
