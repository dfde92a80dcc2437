-- ===== src/Manager.antt =====
-- server/session/SessionManager.h and SessionManager.cpp, and the flags of
-- server/parser/ParserThread.h and ParserThread.cpp: sessions one after the other on one parser
-- thread. The steps of the loop thread and of the parser thread come in any order. Of a session the
-- manager sees that it was created, that it cleans up, which asks the parser thread to discard its
-- data, and that its socket has closed; of the bytes that the parser thread holds, the number of
-- the session that committed them.
pub mod Reaping
pub mod Isolation
pub mod Served
mod Runs
use log_transfer_analyzer.Prelude.{
  ℕ, zero, suc, ◌+◌, ◌-◌, Bool, true, false, not, ◌&&◌, ◌||◌, ◌==◌, if◌then◌else◌, List, [], ◌∷◌,
  ◌++◌, Option, none, some,
}

-- Where the parser thread is in `run`: at its wait, behind the reset of an abort, behind the
-- clearing of its request, and in `finishSession` behind the end of the ring, behind the storing of
-- the result, behind the reset, and behind the async of the completion.
pub data Place : Type 0 where
  waiting discarded cleared finishing stored emptied finished : Place

-- `ParserThread`: the chunks in the ring and those that were consumed since the last reset, the
-- flags, the result, and the asyncs that were sent and not dispatched.
pub record Parser : Type 0 where
  pub ring : List ℕ
  pub consumed : List ℕ
  pub abort_requested : Bool
  pub upload_complete : Bool
  pub place : Place
  pub result : List ℕ
  pub completion_sent : Bool
  pub abort_done_sent : Bool

-- `Session`, as its manager sees it.
pub record Visit : Type 0 where
  pub number : ℕ
  pub marked : Bool
  pub cleaned : Bool
  pub closed : Bool

-- `SessionManager`, its parser, and the count of connections that wait in the backlog. `created` is
-- the number of the next session.
pub record Manager : Type 0 where
  pub session : Option Visit
  pub parser : Parser
  pub backlog : ℕ
  pub pending_connection : Bool
  pub session_finished : Bool
  pub reaping : Bool
  pub completed_sessions : ℕ
  pub created : ℕ
  pub delivered : List (ℕ × List ℕ)

abbrev pub idle_parser : Parser
idle_parser = record {
  ring = [];
  consumed = [];
  abort_requested = false;
  upload_complete = false;
  place = waiting;
  result = [];
  completion_sent = false;
  abort_done_sent = false;
}

abbrev pub listening : Manager
listening = record {
  session = none;
  parser = idle_parser;
  backlog = 0;
  pending_connection = false;
  session_finished = false;
  reaping = false;
  completed_sessions = 0;
  created = 0;
  delivered = [];
}

-- `beginSession`, `markUploadComplete`, `abortSession`, and `commitSlot` of a session's bytes.
abbrev pub begin_session : Parser → Parser
begin_session p = record p { upload_complete = false }

abbrev pub mark_upload_complete : Parser → Parser
mark_upload_complete p = record p { upload_complete = true }

abbrev pub abort_session : Parser → Parser
abort_session p = record p { abort_requested = true }

abbrev pub commit_slot : ℕ → Parser → Parser
commit_slot number p = record p { ring = p.ring ++ (number ∷ []) }

-- The test of `_session`.
abbrev pub has_session : Option Visit → Bool
has_session none = false
has_session (some _) = true

-- `acceptIfIdle`, where a connection of the backlog can be accepted; `starts` is what `start` of the
-- new session returns. A session that does not start has cleaned up.
unfoldable pub accept_if_idle : Bool → Manager → Manager
accept_if_idle starts m =
    let accepted : Manager = record m {
      backlog = m.backlog - 1;
      pending_connection = false;
      created = m.created + 1;
    } in
    if has_session m.session
    then m
    else if m.backlog == 0
    then m
    else if starts
    then record accepted {
      session =
          some (record { number = m.created; marked = false; cleaned = false; closed = false });
      parser = begin_session m.parser;
    }
    else record accepted { parser = abort_session m.parser }

-- `acceptWhenParserIdle`.
unfoldable pub accept_when_parser_idle : Bool → Manager → Manager
unfolding accept_if_idle
accept_when_parser_idle starts m = if m.parser.abort_requested then m else accept_if_idle starts m

-- `onConnection`, for a connection that the kernel has put into the backlog.
unfoldable pub on_connection : Bool → Manager → Manager
unfolding accept_when_parser_idle
on_connection starts m =
    if has_session m.session
    then record m { pending_connection = true }
    else accept_when_parser_idle starts m

-- `onSessionFinished`.
abbrev pub on_session_finished : Manager → Manager
on_session_finished m = record m { session_finished = true; reaping = true }

abbrev pub destroyed : Manager → Manager
destroyed m = record m {
  reaping = false;
  session_finished = false;
  session = none;
  completed_sessions = m.completed_sessions + 1;
}

-- `onReapCb`.
unfoldable pub on_reap : Bool → Manager → Manager
unfolding accept_when_parser_idle
on_reap starts m =
    if m.session_finished
    then accept_when_parser_idle starts (destroyed m)
    else record m { reaping = false }

-- What a session does: it commits bytes, marks its upload complete, cleans up, and reports its
-- closed socket. The first two need an open session, no bytes come behind the mark, and the report
-- comes once, behind the cleanup.
pub data Deed : Type 0 where
  commits marks cleans closes : Deed

-- What the parser thread does: it takes an abort request and resets, clears the request, sends the
-- async that tells the loop thread so, consumes a chunk, finds the upload complete and the ring
-- empty, stores the result, resets, sends the async of the completion, clears the flag.
pub data Turn : Type 0 where
  discards clears reports consumes finds_complete stores empties sends lowers : Turn

-- The steps: a connection arrives, the idle callback, the callbacks of the two asyncs, and those of
-- the session and of the parser thread.
pub data Event : Type 0 where
  connects reaps abort_done : Bool → Event
  completes : Event
  does : Deed → Event
  turns : Turn → Event

-- `onCompletionAsync`: the result goes to the session of that time.
abbrev pub on_completion : Option Visit → Manager → Manager
on_completion none m = record m {
  parser = record m.parser { completion_sent = false; result = [] };
}
on_completion (some v) m = record m {
  parser = record m.parser { completion_sent = false; result = [] };
  delivered = (v.number, m.parser.result) ∷ m.delivered;
}

-- What a session does, if it is there and can.
abbrev pub on_session : Deed → Visit → Manager → Manager
on_session commits v m =
    if v.cleaned || v.marked then m else record m { parser = commit_slot v.number m.parser }
on_session marks v m = if v.cleaned || v.marked then m else record m {
  parser = mark_upload_complete m.parser;
  session = some (record v { marked = true });
}
on_session cleans v m =
    if v.cleaned
    then m
    else record m { parser = abort_session m.parser; session = some (record v { cleaned = true }) }
on_session closes v m =
    if v.cleaned && not v.closed
    then on_session_finished (record m { session = some (record v { closed = true }) })
    else m

-- `resetSessionState`.
abbrev pub reset_session_state : Parser → Parser
reset_session_state p = record p { ring = []; consumed = [] }

-- A round of the loop of `consumeReadySlots`, and the test behind it.
abbrev pub consume : List ℕ → Parser → Parser
consume [] p = p
consume (n ∷ ring) p = record p { ring = ring; consumed = p.consumed ++ (n ∷ []) }

abbrev pub find_complete : List ℕ → Parser → Parser
find_complete [] p = if p.upload_complete then record p { place = finishing } else p
find_complete (n ∷ ring) p = p

-- `run` and `finishSession`, cut where the loop thread can come between.
abbrev pub on_parser : Turn → Place → Parser → Parser
on_parser discards waiting p =
    if p.abort_requested then record (reset_session_state p) { place = discarded } else p
on_parser clears discarded p = record p { abort_requested = false; place = cleared }
on_parser reports cleared p = record p { abort_done_sent = true; place = waiting }
on_parser consumes waiting p = consume p.ring p
on_parser finds_complete waiting p = find_complete p.ring p
on_parser stores finishing p = record p { result = p.consumed; place = stored }
on_parser empties stored p = record (reset_session_state p) { place = emptied }
on_parser sends emptied p = record p { completion_sent = true; place = finished }
on_parser lowers finished p = record p { upload_complete = false; place = waiting }
on_parser _ _ p = p

abbrev pub with_session : Deed → Option Visit → Manager → Manager
with_session deed none m = m
with_session deed (some v) m = on_session deed v m

-- The manager at a callback: a connection is in the backlog, a session is destroyed, an async is
-- dispatched.
abbrev pub arrived : Manager → Manager
arrived m = record m { backlog = m.backlog + 1 }

abbrev pub dispatched : Manager → Manager
dispatched m = record m { parser = record m.parser { abort_done_sent = false } }

unfoldable pub step : Manager → Event → Manager
unfolding on_connection on_reap accept_when_parser_idle
step m (connects starts) = on_connection starts (arrived m)
step m (reaps starts) = if m.reaping then on_reap starts m else m
step m (abort_done starts) =
    if m.parser.abort_done_sent
    then accept_when_parser_idle starts
        (record m { parser = record m.parser { abort_done_sent = false } })
    else m
step m completes = if m.parser.completion_sent then on_completion m.session m else m
step m (does deed) = with_session deed m.session m
step m (turns turn) = record m { parser = on_parser turn m.parser.place m.parser }

unfoldable pub run : Manager → List Event → Manager
run m [] = m
run m (event ∷ events) = run (step m event) events
