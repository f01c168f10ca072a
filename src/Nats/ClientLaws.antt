-- ===== src/Nats/ClientLaws.antt =====
-- What `Connect` leaves open.
use rdispatch.Common.{String, refl}
use rdispatch.Common.Json.{Result, ok, err}
use rdispatch.Common.Resources.{Settled}
use rdispatch.Nats.Client.{Config, Library, connect, dialled, with_js, url_of}

module _ {Conn Js : Type 0} (lib : Library Conn Js) where
  with_js-Settled :
      (conn : Conn) (r : Result Js) → Settled (with_js lib conn r).0 (with_js lib conn r).1
  unfolding with_js
  with_js-Settled conn (ok js) = refl
  with_js-Settled conn (err e) = refl

  dialled-Settled :
      (url : String) (r : Result Conn) → Settled (dialled lib url r).0 (dialled lib url r).1
  unfolding dialled
  dialled-Settled url (ok conn) = with_js-Settled conn (lib.new_js conn)
  dialled-Settled url (err e) = refl

  -- `Connect` leaves exactly the connection open that it returns, and none if it fails.
  pub connect-Settled : (cfg : Config) → Settled (connect lib cfg).0 (connect lib cfg).1
  unfolding connect
  connect-Settled cfg = dialled-Settled (url_of lib cfg) _
