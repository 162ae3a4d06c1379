-- ===== src/Channel/Response.antt =====
-- src/grilio_channel.c: what the channel does with the signals of its transport, and the injected
-- events. A switch that falls into `default` treats the type as the plain one.
use libgrilio.Base.{
  ℕ, ◌+◌, ◌%◌, ◌^◌, Bool, true, false, not, ◌&&◌, ◌||◌, Option, none, some, List, [], ◌∷◌, ◌++◌,
  ◌==◌, if◌then◌else◌,
}
use libgrilio.Base.Table.{lookup, contains}
use libgrilio.Base.Int.{ℤ, signed32}
use libgrilio.Request.{Status, status_eq, can_retry, request_new}
use libgrilio.Channel.Ids.{generate_id}
use libgrilio.Channel.State.{Channel, Env, Event, PacketType, modify, emit, ref, unref}
use libgrilio.Channel.Log.{log}
use libgrilio.Channel.Timers.{reset_pending_timeout, reset_timeout, update_pending}
use libgrilio.Channel.Send.{queue_request}
use libgrilio.Channel.Write.{schedule_write}
use libgrilio.Channel.Retry.{table_insert, pending_remove, remove_request, schedule_retry, respond}
use libgrilio.Channel.Send.{request_sent}

-- enum grilio_response_type
pub data ResponseType : Type 0 where
  solicited solicited_ack solicited_ack_exp : ResponseType

-- enum grilio_transport_indication_type
pub data IndicationType : Type 0 where
  unsolicited unsolicited_ack_exp : IndicationType

-- `grilio_channel_queue_ack`: RIL_RESPONSE_ACKNOWLEDGEMENT is 800. `p` is the new request. The
-- table's reference comes on top of the one that the send queue keeps.
unfoldable pub queue_ack : ℕ → Channel → Channel
unfolding modify table_insert queue_request
queue_ack p c =
    let id = generate_id c.req_table c.last_req_id in
    let d : Channel =
      modify p
        (λ _. record request_new {
          id = id;
          current_id = id;
          code = 800;
          internal = true;
          no_reply = true;
        })
        (record c { last_req_id = id }) in
    queue_request p (table_insert id p d)

-- if (req) req->submitted = 0; and the timer, if a pending request was answered.
abbrev pub clear_submitted : Option ℕ → Channel → Channel
clear_submitted none c = c
clear_submitted (some p) c = modify p (λ r. record r { submitted = 0 }) c

unfoldable pub answer_pending : Env → ℕ → Option ℕ → Channel → Channel
answer_pending e id req c =
    if contains id c.pending
    then reset_pending_timeout e (clear_submitted req (pending_remove id c))
    else c

-- The blocking request has completed.
abbrev pub is_block : ℕ → Channel → Option ℕ → Bool
is_block id c none = false
is_block id c (some p) = (c.reqs p).current_id == id

unfoldable pub release_block : ℕ → Channel → Channel
unfolding unref
release_block id c =
    if is_block id c c.block_req then record (unref c.block_req c) { block_req = none } else c

-- The request is done, or it waits for a retry.
unfoldable pub settle : Env → ℤ → List ℕ → ℕ → Channel → Channel
settle e status resp p c =
    let r = c.reqs p in
    let d = ref p c in
    unref (some p) (
      if can_retry r && r.retry status resp
      then reset_timeout e (schedule_retry e p d)
      else respond p status resp
          (modify p (λ r. record r { status = Status.done }) (remove_request p d)))

abbrev pub settle_sent : Env → ℤ → List ℕ → Option ℕ → Channel → Channel
settle_sent e status resp none c = c
settle_sent e status resp (some p) c =
    if status_eq (c.reqs p).status Status.sent then settle e status resp p c else c

-- The common part for a response; `req` is what the table gave before anything was changed. The
-- status is the word that came, which the log shows as it is and the callbacks read as an int.
unfoldable pub complete : Env → PacketType → ℕ → ℕ → List ℕ → Option ℕ → Channel → Channel
complete e ptype id status resp req c = update_pending (
    schedule_write e (
      settle_sent e (signed32 status) resp req
        (release_block id (log ptype id status resp (answer_pending e id req c)))))

-- `grilio_channel_handle_response`; `fresh` is the request that an acknowledgement would take.
unfoldable pub handle_response : Env → ResponseType → ℕ → ℕ → List ℕ → ℕ → Channel → Channel
handle_response e ResponseType.solicited id status resp fresh c =
    complete e PacketType.resp id status resp (lookup id c.req_table) c
handle_response e ResponseType.solicited_ack id status resp fresh c = log PacketType.ack id 0 resp c
handle_response e ResponseType.solicited_ack_exp id status resp fresh c =
    complete e PacketType.resp_ack_exp id status resp (lookup id c.req_table) (queue_ack fresh c)

-- `grilio_channel_handle_request_sent`
unfoldable pub handle_request_sent : Env → ℕ → Channel → Channel
handle_request_sent e p c = schedule_write e (request_sent p c)

-- `grilio_channel_process_injects`: the handlers may not inject more here; a handler's calls are
-- separate steps.
unfoldable pub inject_events : List (ℕ × List ℕ) → List Event → List Event
inject_events [] out = out
inject_events ((code, body) ∷ l) out = inject_events l (Event.signal_unsol code body ∷ out)

unfoldable pub process_injects : Channel → Channel
unfolding inject_events
process_injects c = record c {
  processing_injects = false;
  injects = [];
  out = inject_events c.injects c.out;
}

-- `grilio_channel_process_injects_cb`
unfoldable pub process_injects_cb : Channel → Channel
process_injects_cb c = process_injects (record c { process_injects_id = false })

-- `grilio_channel_inject_unsol_event`
unfoldable pub inject_unsol_event : ℕ → List ℕ → Channel → Channel
inject_unsol_event code body c = record c {
  injects = c.injects ++ ((code, body) ∷ []);
  process_injects_id = c.process_injects_id || (c.connected && not c.processing_injects);
}

-- `grilio_drop_pending_injects`
unfoldable pub drop_pending_injects : Channel → Channel
drop_pending_injects c = record c { process_injects_id = false; injects = [] }

-- `grilio_channel_handle_connected`; the version offset is the transport's.
unfoldable pub handle_connected : Env → ℕ → ℕ → Channel → Channel
handle_connected e version offset c = schedule_write e (
    process_injects (
      emit Event.signal_connected
        (record c { connected = true; ril_version = (version + offset) % 2 ^ 32 })))

-- `grilio_channel_handle_disconnected`
unfoldable pub handle_disconnected : Channel → Channel
handle_disconnected c = emit Event.signal_eof (record c { connected = false })

-- `grilio_channel_handle_error`
unfoldable pub handle_error : Channel → Channel
handle_error c = emit Event.signal_error (emit Event.transport_shutdown c)

-- `grilio_channel_handle_indication`
unfoldable pub handle_indication : Env → IndicationType → ℕ → List ℕ → ℕ → Channel → Channel
handle_indication e IndicationType.unsolicited code body fresh c =
    schedule_write e (emit (Event.signal_unsol code body) (log PacketType.unsol 0 code body c))
handle_indication e IndicationType.unsolicited_ack_exp code body fresh c = schedule_write e (
    emit (Event.signal_unsol code body)
      (log PacketType.unsol_ack_exp 0 code body (queue_ack fresh c)))
