-- ===== src/Supervisor/Network/Tests.antt =====
-- Runs of the registry of namespaces, and its theorems at a concrete one.
use wasm_cloud_platform.Common.{
  ◌≡◌, refl, sym, false, List, [], ◌∷◌, Text, text_key, nat_key, codes, v4, SocketAddr, ok, All,
  ◌==◌, if◌then◌else◌, lookup, insert, remove, arith,
}
use wasm_cloud_platform.AppId.{new_validate, before, behind, namespace, bare_name, bare_app_name}
use wasm_cloud_platform.Supervisor.Network.{
  empty, register_endpoint, register, put_back, put_apps, deregister_from, deregister,
  resolve_endpoint, app_on, app_by_port, resolve_app_by_port, ConnectDecision, allow, deny,
  is_loopback, check_connect,
}
use wasm_cloud_platform.Supervisor.Network.Registry.{Call, registered, IsAllowed, after}
use wasm_cloud_platform.Supervisor.Network.Ports.{run, IsAlone}
use wasm_cloud_platform.Supervisor.Network.Isolation.{
  check_connect-isolates, IsJustified, check_connect-IsJustified,
}

program : Unit {0}
unfolding new_validate before behind namespace bare_name bare_app_name register_endpoint register
    put_back put_apps deregister_from deregister resolve_endpoint app_on app_by_port
    resolve_app_by_port is_loopback check_connect after run lookup insert remove
program = tt

abbrev local : SocketAddr
local = record { ip = v4 0x7f000001; port = 10101 }

abbrev app_a : Text
app_a = codes "ns1/app-a:v1"

abbrev calls : List Call
calls =
    registered app_a (record { addr = record local { port = 10100 }; h2c = false })
    ∷ registered (codes "ns2/app-b:v1") (record { addr = local; h2c = false })
    ∷ []

cross_namespace_denied :
    check_connect (run empty calls) app_a local ≡ ok (deny (codes "ns1") (codes "ns2"))
unfolding program
cross_namespace_denied = refl

last_deregistered : (deregister (register empty app_a local) app_a local).instances ≡ []
unfolding program
last_deregistered = refl

external_allowed :
    check_connect empty app_a (record { ip = v4 0x08080808; port = 443 })
    ≡ ok (allow (record { ip = v4 0x08080808; port = 443 }))
unfolding program
external_allowed = refl

calls-IsAllowed : All IsAllowed calls
unfolding program
calls-IsAllowed = (refl, (refl, tt))

ns2-IsAlone : IsAlone (run empty calls) (codes "ns2") 10101
unfolding program
ns2-IsAlone = λ other h. sym ((text_key.same_iff (codes "ns2") other).0 (ground arith))

check_connect-isolates_example :
    check_connect (run empty calls) app_a local
    ≡ ok (
        if codes "ns2" == namespace app_a
        then allow local
        else deny (namespace app_a) (codes "ns2"))
unfolding program
check_connect-isolates_example =
    check_connect-isolates calls app_a (codes "ns2") local calls-IsAllowed refl refl ns2-IsAlone

check_connect-IsJustified_example :
    (decision : ConnectDecision) × (check_connect (run empty calls) app_a local ≡ ok decision)
    × IsJustified (run empty calls) app_a local decision
check_connect-IsJustified_example = check_connect-IsJustified calls app_a local calls-IsAllowed
