-- ===== src/Dataplane/Handlers.antt =====
-- crates/ub-dataplane/src/lib.rs: the handlers of the requests that a frame brings.
use unibus_toy.Base.{ℕ, ◌%◌, ◌^◌, min, none, some, List, leb, if◌then◌else◌, length, take}
use unibus_toy.Base.Assoc.{number_key, modify}
use unibus_toy.Core.Error.{ok, err, panicked}
use unibus_toy.Core.Bytes.{be_bytes, from_be}
use unibus_toy.Core.Device
use unibus_toy.Core.Device.{Device}
use unibus_toy.Core.Mr.{MrEntry, check_perms}
use unibus_toy.Core.Jetty.{Jetty, RecvBuffer, Cqe, pop_recv, push_cqe}
use unibus_toy.Core.Verb.{Verb}
use unibus_toy.Core.Verbs.{update}
use unibus_toy.Wire.Frame.{DataExtHeader, ext_flag_err_resp}
use unibus_toy.Transport.Manager.Send.{send_frame_to_peer}
use unibus_toy.Transport.Manager.Operations.{read_cache_insert}
use unibus_toy.Dataplane.Frames.{build_data_frame, build_data_frame_with_flags}
use unibus_toy.Dataplane.State.{
  DataPlaneEngine, Moment, device_offset, hold, with_table, let_go, dies,
}

-- How much of a payload goes into a receive buffer.
unfoldable pub copy_len : List ℕ → RecvBuffer → ℕ
copy_len payload buffer = min (length payload) (length buffer.buf)

unfoldable pub send_cqe : List ℕ → DataExtHeader → RecvBuffer → Cqe
send_cqe payload ext buffer = record {
  wr_id = buffer.wr_id;
  status = 0;
  imm = ext.imm;
  byte_len = copy_len payload buffer % 2 ^ 32;
  jetty_id = ext.jetty_dst;
  verb = Verb.send;
}

unfoldable pub write_imm_cqe : List ℕ → DataExtHeader → Cqe
write_imm_cqe payload ext = record {
  wr_id = 0;
  status = 0;
  imm = ext.imm;
  byte_len = length payload % 2 ^ 32;
  jetty_id = ext.jetty_dst;
  verb = Verb.write_imm;
}

-- A jetty that took a Send: its first receive buffer goes, and the completion comes. The bytes that
-- were copied into the buffer are dropped with it at the end of the handler.
unfoldable pub take_send : List ℕ → DataExtHeader → Jetty → Jetty
take_send payload ext j = elim (pop_recv j).0 [
  | none ↦ j
  | some buffer ↦ (push_cqe (send_cqe payload ext buffer) (pop_recv j).1).1
]

-- The length that a read request asks for.
unfoldable pub read_len : List ℕ → ℕ
read_len payload = if leb 4 (length payload) then from_be 0 (take 4 payload) else 1024

module _ {F Sender : Type 0} where
  unfoldable pub on_jetty :
      ℕ → (Jetty → Jetty) → DataPlaneEngine F Sender → DataPlaneEngine F Sender
  on_jetty handle change g = record g {
    jetty_table = record g.jetty_table { entries = modify handle change g.jetty_table.entries };
  }

  unfoldable pub store_device : ℕ → Device → DataPlaneEngine F Sender → DataPlaneEngine F Sender
  store_device pointer d g = record g { devices = update pointer d g.devices }

  -- `handle_write` on the region that it holds
  unfoldable pub write_held :
      List ℕ → DataExtHeader → MrEntry → DataPlaneEngine F Sender → DataPlaneEngine F Sender
  write_held payload ext e g = elim (check_perms Verb.write e) [
    | ok u ↦ elim (Device.write (device_offset ext e) payload (g.devices e.device.pointer)) [
      | ok d ↦ let_go ext.mr_handle (store_device e.device.pointer d g)
      | err x ↦ let_go ext.mr_handle g
      | panicked ↦ dies g
    ]
    | err x ↦ let_go ext.mr_handle g
    | panicked ↦ dies g
  ]

  unfoldable pub handle_write :
      List ℕ → DataExtHeader → DataPlaneEngine F Sender → DataPlaneEngine F Sender
  handle_write payload ext g = elim (hold ext.mr_handle g.mr_table).0 [
    | none ↦ g
    | some e ↦ write_held payload ext e (with_table (hold ext.mr_handle g.mr_table).1 g)
  ]

  -- The end of `handle_write_imm`: the completion, when there is the jetty.
  unfoldable pub complete_write :
      List ℕ → DataExtHeader → DataPlaneEngine F Sender → DataPlaneEngine F Sender
  complete_write payload ext g =
      on_jetty ext.jetty_dst (λ j. (push_cqe (write_imm_cqe payload ext) j).1) g

  unfoldable pub write_imm_held :
      List ℕ → DataExtHeader → MrEntry → DataPlaneEngine F Sender → DataPlaneEngine F Sender
  write_imm_held payload ext e g = elim (check_perms Verb.write_imm e) [
    | ok u ↦ elim (Device.write (device_offset ext e) payload (g.devices e.device.pointer)) [
      | ok d ↦ let_go ext.mr_handle (complete_write payload ext (store_device e.device.pointer d g))
      | err x ↦ let_go ext.mr_handle g
      | panicked ↦ dies g
    ]
    | err x ↦ let_go ext.mr_handle g
    | panicked ↦ dies g
  ]

  unfoldable pub handle_write_imm :
      List ℕ → DataExtHeader → DataPlaneEngine F Sender → DataPlaneEngine F Sender
  handle_write_imm payload ext g = elim (hold ext.mr_handle g.mr_table).0 [
    | none ↦ g
    | some e ↦ write_imm_held payload ext e (with_table (hold ext.mr_handle g.mr_table).1 g)
  ]

  unfoldable pub handle_send :
      List ℕ → DataExtHeader → DataPlaneEngine F Sender → DataPlaneEngine F Sender
  handle_send payload ext g = on_jetty ext.jetty_dst (take_send payload ext) g

  unfoldable pub reply :
      Moment Sender → ℕ → List ℕ → DataPlaneEngine F Sender → DataPlaneEngine F Sender
  reply at node bytes g = record g {
    transport = send_frame_to_peer at.accepts g.transport node bytes;
  }

  unfoldable pub send_error_response :
      Moment Sender → ℕ → DataExtHeader → ℕ → DataPlaneEngine F Sender → DataPlaneEngine F Sender
  send_error_response at dst_node ext status g =
      reply at dst_node
        (build_data_frame_with_flags g.local_node_id dst_node ext.verb ext.mr_handle ext.ub_addr
          ext.opaque (be_bytes 4 status) ext_flag_err_resp)
        g

  -- The response, cached under the request and sent.
  unfoldable pub respond :
      Moment Sender
      → ℕ
      → Verb
      → DataExtHeader
      → List ℕ
      → DataPlaneEngine F Sender
      → DataPlaneEngine F Sender
  respond at node verb ext payload g =
      let bytes =
        build_data_frame g.local_node_id node verb ext.mr_handle ext.ub_addr ext.opaque payload in
      reply at node bytes (record g {
        transport =
            read_cache_insert at.first_now at.second_now g.transport node (node, ext.opaque) bytes;
      })

  unfoldable pub refuse :
      Moment Sender → ℕ → DataExtHeader → ℕ → DataPlaneEngine F Sender → DataPlaneEngine F Sender
  refuse at node ext status g = send_error_response at node ext status (let_go ext.mr_handle g)

  unfoldable pub read_held :
      Moment Sender
      → ℕ
      → List ℕ
      → DataExtHeader
      → MrEntry
      → DataPlaneEngine F Sender
      → DataPlaneEngine F Sender
  read_held at node payload ext e g = elim (check_perms Verb.read_req e) [
    | ok u ↦
        elim (Device.read (device_offset ext e) (read_len payload) (g.devices e.device.pointer)) [
          | ok buf ↦ let_go ext.mr_handle (respond at node Verb.read_resp ext buf g)
          | err x ↦ let_go ext.mr_handle (send_error_response at node ext 1 g)
          | panicked ↦ dies g
        ]
    | err x ↦ refuse at node ext 2 g
    | panicked ↦ dies g
  ]

  unfoldable pub handle_read_req :
      Moment Sender
      → ℕ
      → List ℕ
      → DataExtHeader
      → DataPlaneEngine F Sender
      → DataPlaneEngine F Sender
  handle_read_req at node payload ext g = elim (hold ext.mr_handle g.mr_table).0 [
    | none ↦ send_error_response at node ext 1 g
    | some e ↦ read_held at node payload ext e (with_table (hold ext.mr_handle g.mr_table).1 g)
  ]
