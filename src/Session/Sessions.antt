-- ===== src/Session/Sessions.antt =====
-- The worlds that a session passes through, and what holds of all of them.
use eliot_search.Prelude.{◌≡◌, refl, sym, subst, false, Option, none, some, [], Bytes}
use eliot_search.Exec.{Result, ok, err}
use eliot_search.Protocol.Buffer.{FrameBuffer}
use eliot_search.Protocol.Message.Session.{SessionClientFrame}
use eliot_search.Protocol.Message.Reply.{SessionReply}
use eliot_search.Protocol.Frames.{Serializer}
use eliot_search.Session.State.{Exchange, World}
use eliot_search.Session.Loop.{Event, IsReady, iterate}
use eliot_search.Session.Traffic.{start, IsTraffic, IsFalling, ids_of, ids_of-IsFalling}
use eliot_search.Session.Rules.{Behind}
use eliot_search.Session.Served.{IsServed, idle, IsServed-IsTraffic}
use eliot_search.Session.Served.Loop.{IsBehind, iterate-IsBehind}

-- `Exchange::new`, with the buffer that `FrameBuffer::new` makes.
unfoldable pub fresh_exchange : FrameBuffer → Exchange
fresh_exchange input = record {
  input = input;
  frame_started = none;
  opened = false;
  last_id = 0;
  completed_id = none;
  expires = none;
  active = none;
  output = none;
  deferred = none;
}

-- A session has begun.
pub record IsFresh (w : World) : Type 0 where
  pub begun : (input : FrameBuffer) × (w.exchange ≡ fresh_exchange input)
  pub silent : w.channel ≡ []

-- Whether the session goes on, and the world behind an iteration.
abbrev pub Turned : Type 0
Turned = Result Bytes (Option Bytes) × World

module _ (json : Serializer SessionReply) (frames : Serializer SessionClientFrame) where
  -- From a world on, by iterations behind which the session goes on; the worker may be gone at any time.
  pub data Reaches (w : World) : World → Type 0 where
    here : Reaches w w
    turn :
        {v v' : World} (event : Event)
        → Reaches w v
        → IsReady event v.exchange
        → iterate json frames event v ≡ (ok none, v')
        → Reaches w v'
    leave : {v : World} → Reaches w v → Reaches w (record v { listening = false })

  fresh-IsServed : {w : World} → IsFresh w → IsServed w.exchange w.channel
  unfolding fresh_exchange
  fresh-IsServed {w = w} fresh =
      let (input, at) = fresh.begun in
      subst (λ x. IsServed x w.channel) (sym at)
        (subst (λ t. IsServed (fresh_exchange input) t) (sym fresh.silent)
          (idle refl refl refl start))

  Behind-iterate :
      (v : World) (event : Event)
      → IsServed v.exchange v.channel
      → Behind IsBehind (iterate json frames event v)
  Behind-iterate v event served = (iterate-IsBehind json frames event served).at v refl refl

  -- In a session that goes on at most one of a job of the worker and a reply that is written is under
  -- way, a frame waits only behind a reply, and what has passed between the session and its worker is in
  -- order: a job was sent only when the one before it was answered and the page of that reply committed
  -- or given up, but for a close behind a raised flag.
  pub Reaches-IsServed : {w v : World} → IsFresh w → Reaches w v → IsServed v.exchange v.channel
  Reaches-IsServed fresh here = fresh-IsServed fresh
  Reaches-IsServed fresh (turn {v = u} {v' = v} event before ready at) =
      subst (Behind IsBehind) at (Behind-iterate u event (Reaches-IsServed fresh before))
  Reaches-IsServed fresh (leave before) = Reaches-IsServed fresh before

  Behind-IsTraffic : (r : Turned) → Behind IsBehind r → IsTraffic r.1.channel
  Behind-IsTraffic (ok none, v) served = IsServed-IsTraffic served
  Behind-IsTraffic (ok (some last), v) fine = fine
  Behind-IsTraffic (err e, v) fine = fine

  -- Behind any iteration of a session, also one that ends it or fails, what has passed between the session
  -- and its worker is in order, and the jobs that were sent have ever greater request ids.
  pub iterate-IsTraffic :
      {w v : World} (event : Event)
      → IsFresh w
      → Reaches w v
      → let behind = (iterate json frames event v).1 in
        IsTraffic behind.channel × IsFalling (ids_of behind.channel)
  iterate-IsTraffic {v = v} event fresh reaches =
      let fine =
        Behind-IsTraffic (iterate json frames event v)
          (Behind-iterate v event (Reaches-IsServed fresh reaches)) in
      (fine, ids_of-IsFalling fine)
