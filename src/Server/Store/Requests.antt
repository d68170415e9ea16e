-- ===== src/Server/Store/Requests.antt =====
-- store.rs, the request table: claiming a request id, remembering its result, asking for it.
use remote_workspace.Prelude.{String, Option, none, some}
use remote_workspace.Protocol.Error.{ProtocolError, ok, err}
use remote_workspace.Protocol.Messages.{RequestStatus}
use remote_workspace.Protocol.Record.{ServerMessage, RequestStatusResult}
use remote_workspace.Server.Log.{Codec}
use remote_workspace.Server.Store.{
  StoredResult, RequestEntry, RequestLogLine, OperationStore, Store, get, insert,
  append_request_line, append_request_tracked,
}

abbrev pub claimed : String → RequestEntry
claimed op = record { status = RequestStatus.in_progress; result = none; op = some op }

abbrev pub finished : ServerMessage → RequestEntry
finished msg = record {
  status = RequestStatus.done;
  result = some (StoredResult.done msg);
  op = none;
}

abbrev pub failed : ProtocolError → RequestEntry
failed e = record { status = RequestStatus.error; result = some (StoredResult.error e); op = none }

abbrev pub claim_line : (request_id op : String) → RequestLogLine
claim_line request_id op = record {
  request_id = request_id;
  status = RequestStatus.in_progress;
  result_done = none;
  result_error = none;
  op = some op;
}

abbrev pub result_line : (request_id : String) → ServerMessage → RequestLogLine
result_line request_id msg = record {
  request_id = request_id;
  status = RequestStatus.done;
  result_done = some msg;
  result_error = none;
  op = none;
}

abbrev pub error_line : (request_id : String) → ProtocolError → RequestLogLine
error_line request_id e = record {
  request_id = request_id;
  status = RequestStatus.error;
  result_done = none;
  result_error = some e;
  op = none;
}

module _ (json : Codec RequestLogLine) where
  -- `claim_request`: the entry that is there, or `none` for the caller that now owns the request.
  unfoldable pub claim_request : (request_id op : String) → Store (Option RequestEntry)
  unfolding append_request_line
  claim_request request_id op s = elim (get request_id s.requests) [
    | some entry ↦ (ok (some entry), s)
    | none ↦
        let (r, s') = append_request_line json (claim_line request_id op) s in
        elim r [
          | err e ↦ (err e, s')
          | ok _ ↦ (ok none, record s' { requests = insert request_id (claimed op) s'.requests })
        ]
  ]

  unfoldable pub remember_result : (request_id : String) → ServerMessage → Store (Unit {0})
  unfolding append_request_tracked
  remember_result request_id msg =
      append_request_tracked json (result_line request_id msg) (insert request_id (finished msg))

  unfoldable pub remember_error : (request_id : String) → ProtocolError → Store (Unit {0})
  unfolding append_request_tracked
  remember_error request_id e =
      append_request_tracked json (error_line request_id e) (insert request_id (failed e))

unfoldable pub lookup_request : OperationStore → String → Option RequestEntry
lookup_request s request_id = get request_id s.requests

abbrev stored_error : Option StoredResult → Option ProtocolError
stored_error (some (StoredResult.error e)) = some e
stored_error _ = none

unfoldable pub status_for_request : OperationStore → String → RequestStatusResult
unfolding lookup_request
status_for_request s request_id = elim (lookup_request s request_id) [
  | none ↦ record { target = request_id; status = RequestStatus.unknown; error = none }
  | some entry ↦ record {
    target = request_id;
    status = entry.status;
    error = stored_error entry.result;
  }
]
