-- ===== src/Examples/Probing.antt =====
-- A probe of two hosts, of which the second one is the primary, alone and behind a connection string.
use mongod_proxy.Examples.Inspector.{with_body}
use mongod_proxy.Service.Upstream.{ProxyClient}
use mongod_proxy.Probe.Defs.{Selection, SrvHost, select_primary}
use mongod_proxy.Bytes.Defs.{eq_bytes, Bytes}
use mongod_proxy.Prelude.{
  Bool, ◌==◌, if◌then◌else◌, Option, ◌≡◌, List, ◌∷◌, err, ok, [], true, refl,
}
use mathlib.Core.List.{Mem}
use mongod_proxy.Bytes.Text.{ascii}
use mathlib.Core.Option
use mongod_proxy.Message
use mongod_proxy.Examples.Fields.{Fields, text_docs}
use mongod_proxy.Message.Defs.{Message}
use mongod_proxy.Service.Defs.{values}
use mongod_proxy.Service.Dial.{Dialer, forward_to}
use mongod_proxy.Probe.Hello.{probe_all, Build, is_primary}
use mongod_proxy.Probe.Answered
use mathlib.Core.List.Perm
use mongod_proxy.Srv.Random.{split_mix_64}
use mongod_proxy.Proxy.Startup.{Proxy, Network, IsNetwork, from_uri}
use mongod_proxy.Proxy.Routes
use mongod_proxy.Proxy.Routes.{Leads}
use mongod_proxy.Proxy.Defs.{target_of}
use mongod_proxy.Uri
use mongod_proxy.Uri.Defs.{ParsedConnectionUri}
use mongod_proxy.Examples.Stacked.{sent_bson}

abbrev build : Build Bytes
build = record {
  version = ascii "1";
  os = ascii "linux";
  architecture = ascii "x";
  int32 = λ n. ascii "1";
}

-- A text is true when it is written so.
abbrev get_bool : Fields → Bytes → Option Bool
get_bool d k = Option.map (λ v. eq_bytes v (ascii "true")) (text_docs.get d k)

abbrev says : Bytes → Message Fields
says v = with_body ((ascii "ismaster", v) ∷ [])

-- Each host is a port of one machine; a socket is the replies that will come.
abbrev dialer : Dialer sent_bson
dialer = record {
  IoError = Unit {0};
  DnsError = Unit {0};
  Domain = Bytes;
  Socket = List (Message Fields);
  connect = λ host port. ok (says (if port == 2 then ascii "true" else ascii "false") ∷ []);
  server_name = λ name. ok name;
  handshake = λ domain socket. ok socket;
  framed = values;
}

abbrev hosts : List SrvHost
hosts = record { host = ascii "a"; port = 1 } ∷ record { host = ascii "b"; port = 2 } ∷ []

abbrev winner : SrvHost
winner = record { host = ascii "b"; port = 2 }

is_primary-IsProbed_example :
    Answered.IsProbed sent_bson text_docs build dialer get_bool
      (forward_to sent_bson dialer (ascii "b") 2 true)
      (is_primary sent_bson text_docs build dialer get_bool true (ascii "b") 2)
is_primary-IsProbed_example =
    Answered.is_primary-IsProbed sent_bson text_docs build dialer get_bool true (ascii "b") 2

selected :
    select_primary (probe_all sent_bson text_docs build dialer get_bool (λ h. true) true hosts)
    ≡ Selection.primary winner
unfolding select_primary probe_all mongod_proxy.Service.Upstream.call
    mongod_proxy.Message.Defs.encode mongod_proxy.Operation.Defs.write_bytes
    mongod_proxy.Operation.OpMsg.Frame.write_bytes mongod_proxy.Header.Length.checked_length
    mongod_proxy.Ids.MessageLength.try_new mongod_proxy.Service.Upstream.more_to_come
    mongod_proxy.Service.Upstream.after_poll mongod_proxy.Service.Upstream.poll_next
    mongod_proxy.Bson.Documents.find_entry eq_bytes
selected = refl

select_primary-Answered_example :
    Mem winner hosts × Answered.Answered sent_bson text_docs build dialer get_bool true winner true
select_primary-Answered_example =
    Answered.select_primary-Answered sent_bson text_docs build dialer get_bool (λ h. true) true
      hosts winner selected

-- The probes settle in the order in which they start, in time, and there is no DNS.
abbrev network : Network Bytes
network = record {
  rng = split_mix_64;
  entropy = record { state = 7 };
  from_system_config = err (ascii "dns");
  settle_order = λ hosts. hosts;
  in_time = λ h. true;
}

network-IsNetwork : IsNetwork network
network-IsNetwork = record { each_once = λ hosts. Perm.rfl }

abbrev started : Proxy
started = record { target = target_of winner; tls = true; rewrite_hello = true }

abbrev uri : Bytes
uri = ascii "mongodb://a:1,b:2/?tls=true"

uri_leads : from_uri sent_bson text_docs build dialer get_bool network uri ≡ ok started
unfolding from_uri mongod_proxy.Uri.Text.split_once mongod_proxy.Uri.Text.rsplit_once
    mongod_proxy.Uri.Text.parse_u16 mongod_proxy.Service.Upstream.call
    mongod_proxy.Message.Defs.encode mongod_proxy.Operation.Defs.write_bytes
    mongod_proxy.Operation.OpMsg.Frame.write_bytes mongod_proxy.Header.Length.checked_length
    mongod_proxy.Ids.MessageLength.try_new mongod_proxy.Service.Upstream.more_to_come
    mongod_proxy.Service.Upstream.after_poll mongod_proxy.Service.Upstream.poll_next
    mongod_proxy.Bson.Documents.find_entry
uri_leads = refl

from_uri-Leads_example :
    (u : ParsedConnectionUri) × (Uri.Defs.parse uri ≡ ok u)
    × Leads sent_bson text_docs build dialer get_bool network u.scheme u.hosts u.tls
        u.srv_service_name started
from_uri-Leads_example =
    Routes.from_uri-Leads sent_bson text_docs build dialer get_bool network network-IsNetwork uri
      started uri_leads
