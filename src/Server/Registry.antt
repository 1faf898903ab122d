-- ===== src/Server/Registry.antt =====
-- apps/sidewire/src/server.rs: `register_device` and `remove_device_if_same`. A device map has the
-- sessions under their ids; a connection is a number, so that two sessions have the same connection
-- if they have the same number.
use side_wire_kernel_su.Base.{
  ℕ, Bool, false, ◌||◌, Option, none, some, List, [], ◌∷◌, ◌==◌, if◌then◌else◌, bytes_eq,
}

pub record DeviceSession : Type 0 where
  pub id : List ℕ
  pub name : List ℕ
  pub connection : ℕ

abbrev pub DeviceMap : Type 0
DeviceMap = List (List ℕ × DeviceSession)

-- The map, and the connections that are closed.
pub record Registry : Type 0 where
  pub devices : DeviceMap
  pub closed : List ℕ

abbrev pub get_device : List ℕ → DeviceMap → Option DeviceSession
get_device id [] = none
get_device id ((j, s) ∷ more) = if bytes_eq j id then some s else get_device id more

abbrev pub remove_device : List ℕ → DeviceMap → DeviceMap
remove_device id [] = []
remove_device id ((j, s) ∷ more) =
    let rest = remove_device id more in if bytes_eq j id then rest else (j, s) ∷ rest

abbrev pub insert_device : DeviceSession → DeviceMap → DeviceMap
insert_device s devices = (s.id, s) ∷ remove_device s.id devices

abbrev pub is_closed : ℕ → List ℕ → Bool
is_closed connection [] = false
is_closed connection (c ∷ cs) = c == connection || is_closed connection cs

abbrev pub same_connection : Option DeviceSession → DeviceSession → Bool
same_connection none session = false
same_connection (some current) session = current.connection == session.connection

-- The session that is replaced is closed, unless it has the same connection or is closed already.
abbrev pub close_previous : Option DeviceSession → DeviceSession → List ℕ → List ℕ
close_previous none session closed = closed
close_previous (some existing) session closed =
    if existing.connection == session.connection || is_closed existing.connection closed
    then closed
    else existing.connection ∷ closed

unfoldable pub register_device : Registry → DeviceSession → Registry
register_device r session = record {
  devices = insert_device session r.devices;
  closed = close_previous (get_device session.id r.devices) session r.closed;
}

unfoldable pub remove_device_if_same : Registry → List ℕ → DeviceSession → Registry
remove_device_if_same r id session =
    if same_connection (get_device id r.devices) session
    then record r { devices = remove_device id r.devices }
    else r
