-- ===== src/Tests/Dataplane.antt =====
-- The verb engine of crates/ub-dataplane/src/lib.rs on a node with one memory.
use unibus_toy.Base.{ℕ, ◌-◌, ◌≡◌, refl, true, [], ◌∷◌, arith}
use unibus_toy.Base.Assoc.{number_key, lookup as map_lookup, modify}
use unibus_toy.Core.Addr
use unibus_toy.Core.Buffer.{splice}
use unibus_toy.Core.Device
use unibus_toy.Core.Device.Backing
use unibus_toy.Core.DeviceKind
use unibus_toy.Core.Mr
use unibus_toy.Core.Mr.Registered.{lookup_by_addr_lem}
use unibus_toy.Core.Perms.{contains}
use unibus_toy.Core.Verb
use unibus_toy.Core.Verbs.{ub_write_sync}
use unibus_toy.Wire.Frame.{DataExtHeader}
use unibus_toy.Transport.Session.State.{new}
use unibus_toy.Transport.Session.Receiving
use unibus_toy.Transport.Manager.State.{InboundFrame}
use unibus_toy.Transport.Manager.Send.{find_session}
use unibus_toy.Transport.Manager.Operations.{is_executed}
use unibus_toy.Transport.Manager.Executed.{HasSession}
use unibus_toy.Dataplane.State
use unibus_toy.Dataplane.State.{
  DataPlaneEngine, Moment, hold, offset_in_mr, device_offset, with_table, let_go,
}
use unibus_toy.Dataplane.Handlers.{handle_write, write_held, store_device}
use unibus_toy.Dataplane.Replays.{handle_verb_frame-Once}
use unibus_toy.Dataplane.Holds.{IsCounted}
use unibus_toy.Dataplane.Returned.{handle_verb_frame-mr_table}
use unibus_toy.Core.MrCache.{MrCacheEntry}
use unibus_toy.Dataplane.Dispatch.{handle_verb_frame, handle_verb, write_once, executed}
use unibus_toy.Dataplane.Remote.{Names, devices_after, handle_write-ub_write_sync}
use unibus_toy.Tests.Devices.{
  open_entry, table, target, devices, found, table-IsTable, target-IsCovered, jetties,
}
use unibus_toy.Tests.Manager.{start, node_1, accepts, write_1}

abbrev engine : DataPlaneEngine ℕ ℕ
engine = State.new 1 table [] jetties devices node_1

abbrev moment : Moment ℕ
moment = record { accepts = accepts; first_now = 5; second_now = 6 }

abbrev write_ext : DataExtHeader
write_ext = record write_1.ext { verb = Verb.write; mr_handle = 1; ub_addr = target }

write_ext-Names : Names table write_ext open_entry (Addr.offset target - open_entry.base_offset)
unfolding Mr.is_active
write_ext-Names = record {
  registered = found;
  covering = lookup_by_addr_lem target 1 open_entry table table-IsTable found target-IsCovered;
  active = refl;
}

handle_write-ub_write_sync_example :
    (handle_write (1 ∷ 2 ∷ []) write_ext engine).devices
    ≡ devices_after devices (ub_write_sync table target (1 ∷ 2 ∷ []) devices)
unfolding State.new
handle_write-ub_write_sync_example =
    handle_write-ub_write_sync (1 ∷ 2 ∷ []) write_ext engine open_entry
      (Addr.offset target - open_entry.base_offset) write_ext-Names

-- A write of two bytes at the address.
abbrev write_2 : InboundFrame
write_2 = record { header = write_1.header; ext = write_ext; payload = 1 ∷ 2 ∷ []; seq = 1 }

node_1-HasSession : HasSession engine.transport 2
unfolding State.new map_lookup new
node_1-HasSession = record { epoch = 7; session = start; known = refl; there = refl }

write_2-alive : (handle_verb_frame moment write_2 engine).alive ≡ true
unfolding handle_verb_frame handle_verb write_once handle_write hold write_held let_go with_table
    store_device executed is_executed find_session map_lookup modify State.new Mr.lookup
    Mr.is_active Mr.try_inflight_inc Mr.check_perms Mr.required contains new Receiving.is_executed
    Receiving.any_executed offset_in_mr device_offset Addr.new Addr.offset Device.write
    Device.backing Device.with_backing Backing.write Backing.check_bounds splice
write_2-alive = refl

handle_verb_frame-Once_example :
    let once = handle_verb_frame moment write_2 engine in
    let twice = handle_verb_frame moment write_2 once in
    twice ≡ record once { transport = twice.transport }
handle_verb_frame-Once_example =
    handle_verb_frame-Once moment moment write_2 engine refl node_1-HasSession write_2-alive

table-IsCounted : IsCounted engine.mr_table
unfolding State.new
table-IsCounted = record {
  handles = ((refl, tt), (tt, tt));
  counts = (omega arith, (omega arith, tt));
}

handle_verb_frame-mr_table_example :
    (handle_verb_frame moment write_2 engine).mr_table ≡ engine.mr_table
handle_verb_frame-mr_table_example =
    handle_verb_frame-mr_table moment write_2 engine table-IsCounted write_2-alive

-- A read of a region that is not there.
abbrev lost : DataExtHeader
lost = record write_1.ext { verb = Verb.read_req; mr_handle = 9 }

-- A region of node 2, and an address in it.
abbrev far : MrCacheEntry
far = record {
  remote_mr_handle = 4;
  owner_node = 2;
  base_ub_addr = Addr.new 1 2 0 0 0;
  len = 16;
  perms = 3;
  device_kind = DeviceKind.memory;
}

abbrev caller : DataPlaneEngine ℕ ℕ
caller = record engine { mr_cache = ((2, 4), far) ∷ [] }

abbrev far_reply : DataExtHeader
far_reply = record write_1.ext { verb = Verb.read_resp; opaque = 1 }
