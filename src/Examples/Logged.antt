-- ===== src/Examples/Logged.antt =====
-- A login through the log layer, at concrete inputs.
use mongod_proxy.Service.Accept.{accept_client_inner}
use mongod_proxy.Log.Discreet.{names}
use mongod_proxy.Bytes.Defs.{Bytes}
use mongod_proxy.Redact.Message.{debug_message}
use mongod_proxy.Bson.{Bson}
use mongod_proxy.Prelude.{◌↔◌, ◌+◌, ℕ, ◌≡◌, ◌∷◌, err, ok, pos, inl, [], none, false, refl}
use mongod_proxy.Log.Defs
use mongod_proxy.Log.Discreet
use mongod_proxy.Log.Transparent
use mongod_proxy.Redact.Agree
use mongod_proxy.Redact.Alike
use mongod_proxy.Redact.Told
use mongod_proxy.Bytes.Text.{ascii}
use mongod_proxy.Redact.Defs.{is_sensitive_key, Fields, no_fields, field, scalar}
use mongod_proxy.Message.Defs.{Message}
use mongod_proxy.Operation
use mongod_proxy.Operation.OpMsg.Defs.{OpMsgSection}
use mongod_proxy.Service.Defs.{Service, value, failure}

-- Documents that are what the logs see of them.
abbrev seen_bson : Bson
seen_bson = record {
  Document = Fields ℕ;
  Error = Unit {0};
  from_reader = λ bs. err tt;
  to_writer = λ d. ok (5 ∷ 0 ∷ 0 ∷ 0 ∷ 0 ∷ []);
  serialize_to_vec = λ d. ok (5 ∷ 0 ∷ 0 ∷ 0 ∷ 0 ∷ []);
  keys = names;
}

abbrev login_body : ℕ → Fields ℕ
login_body secret =
    field (ascii "saslStart") (scalar 1) (field (ascii "payload") (scalar secret) no_fields)

abbrev login : ℕ → Message (Fields ℕ)
login secret = record {
  request_id = pos 5;
  response_to = none;
  operation = Operation.Defs.message (record {
    flags = record { checksum_present = false; more_to_come = false; exhaust_allowed = false };
    sections = OpMsgSection.body (login_body secret) ∷ [];
    checksum = none;
  });
}

-- A server that sends the request back.
abbrev echo : Service (Message (Fields ℕ)) Bytes
echo = record { State = ℕ; call = λ n req. (ok (value req ∷ []), n + 1) }

login_bodies : Agree.Agree (login_body 7) (login_body 8)
unfolding Agree.Agree is_sensitive_key mongod_proxy.Bytes.Defs.eq_bytes
login_bodies = (refl, inl refl, (refl, inl refl, tt))

logins : Alike.AgreeMessage (λ d. d) (login 7) (login 8)
logins = (refl, refl, (refl, (login_bodies, tt), refl))

debug_message-AgreeMessage_example :
    (debug_message (λ d. d) (login 7) ≡ debug_message (λ d. d) (login 8))
    ↔ Alike.AgreeMessage (λ d. d) (login 7) (login 8)
debug_message-AgreeMessage_example = Told.debug_message-AgreeMessage (λ d. d) (login 7) (login 8)

call-AgreeMessage_example :
    (Defs.call seen_bson (λ d. d) echo (0, []) (login 7)).1.1
    ≡ (Defs.call seen_bson (λ d. d) echo (4, []) (login 8)).1.1
call-AgreeMessage_example =
    Discreet.call-AgreeMessage seen_bson (λ d. d) (λ d. refl) echo echo 0 4 [] (login 7) (login 8)
      logins (logins, tt)

accept_client_inner-log_service_example :
    Transparent.unlogged seen_bson
      (λ d. d)
      Bytes
      echo
      (accept_client_inner seen_bson Bytes Bytes
        (Defs.log_service seen_bson (λ d. d) echo)
        (value (login 7) ∷ value (login 8) ∷ failure (ascii "gone") ∷ [])
        (0, [])
        [])
    ≡ accept_client_inner seen_bson Bytes Bytes echo
        (value (login 7) ∷ value (login 8) ∷ failure (ascii "gone") ∷ [])
        0
        []
accept_client_inner-log_service_example =
    Transparent.accept_client_inner-log_service seen_bson (λ d. d) Bytes echo
      (value (login 7) ∷ value (login 8) ∷ failure (ascii "gone") ∷ []) 0 [] []
