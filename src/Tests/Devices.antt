-- ===== src/Tests/Devices.antt =====
-- The regions, devices, verbs and jetties of crates/ub-core at concrete inputs.
use unibus_toy.Base.{
  ℕ, ◌-◌, ◌≡◌, refl, none, some, inl, List, [], ◌∷◌, ◌++◌, arith, if◌then◌else◌, take, drop,
  replicate,
}
use unibus_toy.Base.Assoc.{lookup as map_lookup}
use unibus_toy.Core.Error.{ok, err, addr_invalid, perm_denied}
use unibus_toy.Core.Addr
use unibus_toy.Core.Buffer.{splice}
use unibus_toy.Core.Addr.Fields.{AreFields, fields-new}
use unibus_toy.Core.DeviceKind
use unibus_toy.Core.Device
use unibus_toy.Core.Device.{Device, memory, backing, with_backing}
use unibus_toy.Core.Device.Backing
use unibus_toy.Core.Device.Backing.Access.{IsBacking, fits}
use unibus_toy.Core.Device.Backing.Atomic.{Counts, add_all-Counts}
use unibus_toy.Core.Perms.{contains, perm_read}
use unibus_toy.Core.Mr
use unibus_toy.Core.Mr.{
  MrTable, MrEntry, DeviceRef, lookup, lookup_by_addr, allocator_of, check_perms, required,
}
use unibus_toy.Core.Mr.Covering.{IsCovered}
use unibus_toy.Core.Mr.Kept.{IsTable}
use unibus_toy.Core.Mr.Registered.{
  registers, step, HasRoom, step-IsTable, new-IsTable, lookup_by_addr_lem,
}
use unibus_toy.Core.Verbs.{Devices, update, ub_read_sync, ub_write_sync}
use unibus_toy.Core.Verbs.Regions.{IsTarget, ub_read_sync_lem, ub_write-ub_read}
use unibus_toy.Core.Verb
use unibus_toy.Core.Jetty
use unibus_toy.Core.Jetty.{Jetty, JettyConfig, WorkRequest}
use unibus_toy.Core.Jetty.Order.{
  JettyCall, posts_send, posts_recv, pops_send, closes, History, run, IsOrdered, run-IsOrdered,
}
use unibus_toy.Core.Jetty.Depths.{IsWithin, run-IsWithin}
use unibus_toy.Core.Jetty.Table
use unibus_toy.Core.Jetty.Table.{JettyTable}

-- A memory of 64 bytes.
abbrev ram : Backing.Backing
ram = record { bytes = replicate 64 0; capacity = 64 }

ram-IsBacking : IsBacking ram
ram-IsBacking = record { full = refl; addressable = omega arith }

add_all-Counts_example : Counts 8 (5 ∷ 7 ∷ []) ram
add_all-Counts_example =
    add_all-Counts 8 (5 ∷ 7 ∷ []) ram ram-IsBacking
      (record { aligned = refl; inside = omega arith })

abbrev device : DeviceRef
device = record { pointer = 0; device_id = 0; kind = DeviceKind.memory }

abbrev empty : MrTable
empty = Mr.new 1 2

empty-HasRoom : HasRoom device 16 empty
unfolding Mr.new allocator_of map_lookup
empty-HasRoom = record { numbered = omega arith; offsets = omega arith; handles = omega arith }

step-IsTable_example : IsTable (step (registers device 16 3) empty)
step-IsTable_example =
    step-IsTable (registers device 16 3) empty (new-IsTable 1 2 (omega arith) (omega arith))
      empty-HasRoom

-- Two regions of the memory: 16 bytes to read and write, and 8 bytes that nobody may read.
abbrev pub open_entry : MrEntry
open_entry = record {
  handle = 1;
  device = device;
  base_offset = 0;
  len = 16;
  perms = 3;
  base_ub_addr = Addr.new 1 2 0 0 0;
  state = Mr.active;
  inflight_refs = 0;
}

abbrev closed_entry : MrEntry
closed_entry = record open_entry {
  handle = 2;
  base_offset = 16;
  len = 8;
  perms = 0;
  base_ub_addr = Addr.new 1 2 0 16 0;
}

abbrev pub table : MrTable
table = record empty {
  entries = (1, open_entry) ∷ (2, closed_entry) ∷ [];
  next_handle = 3;
  offset_allocators = (0, 24) ∷ [];
}

pub table-IsTable : IsTable table
unfolding Mr.new allocator_of map_lookup
table-IsTable = record {
  pod = omega arith;
  node = omega arith;
  placed = (
    record { base = refl; device = omega arith; inside = omega arith },
    (record { base = refl; device = omega arith; inside = omega arith }, tt),
  );
  apart = (((λ same. inl (omega arith)), tt), (tt, tt));
  fresh = (omega arith, (omega arith, tt));
  below = (omega arith, (omega arith, tt));
}

abbrev pub target : ℕ
target = Addr.new 1 2 0 8 0

target-fields : AreFields 1 2 0 8 0
target-fields = record {
  pod_fits = omega arith;
  node_fits = omega arith;
  device_fits = omega arith;
  offset_fits = omega arith;
  reserved_fits = omega arith;
}

target-offset : Addr.offset target ≡ 8
target-offset = (fields-new 1 2 0 8 0 target-fields).3

pub target-IsCovered : IsCovered table.node_id target open_entry
unfolding Mr.new
target-IsCovered =
    let fields = fields-new 1 2 0 8 0 target-fields in
    record {
      same_node = fields.1;
      same_device = fields.2;
      above = omega (arith, target-offset);
      below = omega (arith, target-offset);
    }

pub found : lookup 1 table ≡ some open_entry
unfolding lookup map_lookup
found = refl

lookup_by_addr_lem_example :
    lookup_by_addr target table ≡ some (open_entry, Addr.offset target - open_entry.base_offset)
lookup_by_addr_lem_example =
    lookup_by_addr_lem target 1 open_entry table table-IsTable found target-IsCovered

abbrev pub devices : Devices
devices p = memory (record { backing = ram })

ram-IsTarget : IsTarget table devices target 1 open_entry
unfolding backing
ram-IsTarget = record {
  table = table-IsTable;
  registered = found;
  covered = target-IsCovered;
  small = omega (arith, target-offset);
  device = ram-IsBacking;
}

-- Of the 20 bytes that are read, 12 lie behind the region.
ub_read_sync_lem_example :
    let d = backing (devices 0) in
    ub_read_sync table target 20 devices ≡ (
      if contains 3 perm_read
      then (if fits (Addr.offset target) 20 d
          then ok (take 20 (drop (Addr.offset target) d.bytes))
          else err addr_invalid)
      else err perm_denied)
ub_read_sync_lem_example =
    ub_read_sync_lem table devices target 1 20 open_entry ram-IsTarget (omega arith)

abbrev rewritten : Backing.Backing
rewritten = record ram { bytes = replicate 8 0 ++ (1 ∷ 2 ∷ 3 ∷ replicate 53 0) }

abbrev devices' : Devices
devices' = update 0 (memory (record { backing = rewritten })) devices

wrote : ub_write_sync table target (1 ∷ 2 ∷ 3 ∷ []) devices ≡ ok devices'
unfolding ub_write_sync check_perms required contains Device.write backing with_backing
    Backing.write Backing.check_bounds splice
wrote =
    let located =
      lookup_by_addr_lem target 1 open_entry table table-IsTable found target-IsCovered in
    rw (located, target-offset)

ub_write-ub_read_example : ub_read_sync table target 3 devices' ≡ ok (1 ∷ 2 ∷ 3 ∷ [])
ub_write-ub_read_example =
    ub_write-ub_read table devices devices' target 1 (1 ∷ 2 ∷ 3 ∷ []) open_entry ram-IsTarget
      (omega arith) (unfold contains in refl) wrote

-- A jetty with room for two sends and two completions.
abbrev jetty_config : JettyConfig
jetty_config = record { jfs_depth = 2; jfr_depth = 1; jfc_depth = 2; jfc_high_watermark = 2 }

abbrev fresh_jetty : Jetty
fresh_jetty = Jetty.new 1 2 jetty_config

abbrev start : History
start = record {
  jetty = fresh_jetty;
  sends_in = [];
  sends_out = [];
  recvs_in = [];
  recvs_out = [];
  cqes_in = [];
  cqes_out = [];
}

abbrev request : ℕ → WorkRequest
request n = record {
  wr_id = n;
  dst_jetty = record { node_id = 3; jetty_id = 1 };
  payload = n ∷ [];
  imm = none;
  verb = Verb.send;
  ub_addr = none;
  mr_handle = none;
}

abbrev calls : List JettyCall
calls =
    posts_send (request 10)
    ∷ posts_recv [] 20
    ∷ posts_send (request 11)
    ∷ pops_send
    ∷ closes
    ∷ posts_send (request 12)
    ∷ []

start-IsOrdered : IsOrdered start
unfolding Jetty.new
start-IsOrdered = record { sends = refl; recvs = refl; cqes = refl }

run-IsOrdered_example : IsOrdered (run calls start)
run-IsOrdered_example = run-IsOrdered calls start start-IsOrdered

start-IsWithin : IsWithin start.jetty
unfolding Jetty.new
start-IsWithin = record { sends = omega arith; recvs = omega arith; cqes = omega arith }

run-IsWithin_example : IsWithin (run calls start).jetty
run-IsWithin_example = run-IsWithin calls start start-IsWithin

abbrev pub jetties : JettyTable
jetties = Table.new 2 jetty_config
