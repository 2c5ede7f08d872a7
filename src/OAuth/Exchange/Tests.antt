-- ===== src/OAuth/Exchange/Tests.antt =====
-- oauth.go: an exchange of the fixtures.
use identity_hub.Base.{Bytes, [], codes, minute, none, refl, ◌*◌, ◌∷◌, ◌≡◌, ◌≢◌}
use identity_hub.World.{CodeRow, World, ok, transaction, ◌>>=◌}
use identity_hub.Sql.Audit.{insert_audit_event}
use identity_hub.Sql.Codes.{
  Locked, get_authorization_code_for_update, list_application_roles_for_user, list_permission_keys,
  mark_authorization_code_used,
}
use identity_hub.OAuth.{Service}
use identity_hub.OAuth.Exchange.{
  ExchangeInput, ExchangeResult, exchange, exchange_authorization_code, exchange_code,
  exchange_result, finish_exchange, settle, valid_exchange_input,
}
use identity_hub.OAuth.Exchange.Once.{Redeemed, exchange-Redeemed, exchange_once}
use identity_hub.Fixtures.{env, ext, tables, world}

abbrev service : Service
service = record {
  ext = ext;
  clients =
      record {
        id = codes "contabilidad";
        redirect_uri = codes "https://c.test/cb";
        origin = codes "https://c.test";
      }
      ∷ [];
}

abbrev raw : Bytes
raw = 5 ∷ []

abbrev input : ExchangeInput
input = record {
  code = raw;
  client_id = codes "contabilidad";
  redirect_uri = codes "https://c.test/cb";
  code_verifier = 7 ∷ [];
}

abbrev code_of : CodeRow
code_of = record {
  id = 60;
  user_id = 2;
  application_id = 50;
  code_hash = 1 ∷ raw;
  redirect_uri = codes "https://c.test/cb";
  code_challenge = 1 ∷ 7 ∷ [];
  expires_at = 2000 * minute;
  used_at = none;
}

abbrev start : World
start = world (record tables { authorization_codes = code_of ∷ [] })

abbrev result : ExchangeResult
result = record {
  user_id = 2;
  client_id = codes "contabilidad";
  roles = codes "contabilidad.senior" ∷ [];
  permissions = codes "facturas:leer" ∷ [];
}

abbrev after : World
after = (exchange service input start).1

exchanges : exchange service input start ≡ (ok result, after)
unfolding exchange ◌>>=◌ transaction valid_exchange_input exchange_code finish_exchange settle
    exchange_result exchange_authorization_code list_application_roles_for_user list_permission_keys
    insert_audit_event get_authorization_code_for_update mark_authorization_code_used
exchanges = refl

exchange-Redeemed_example : (l : Locked) × Redeemed service raw input (env.clock 0) start.tables l
exchange-Redeemed_example = exchange-Redeemed service raw input start after result refl exchanges

exchange_once_example : exchange service input after ≢ (ok result, after)
exchange_once_example =
    exchange_once service input input start after after after result result refl refl exchanges
