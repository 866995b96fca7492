-- ===== src/Fsm/Rfc.antt =====
-- The state column of the transition table of RFC 1661, section 4.1, written down apart from the
-- code. An event that the table marks as impossible in a state keeps the state.
use mpdx.Fsm.Types.{
  State, initial, starting, closed, stopped, closing, stopping, req_sent, ack_rcvd, ack_sent,
  opened,
}

-- The events of the table; `rcr_plus` and `rcr_minus` are an acceptable and an unacceptable
-- Configure-Request, `rxj_plus` and `rxj_minus` a tolerable and a fatal reject.
pub data Event : Type 0 where
  up down open_ close : Event
  to_plus to_minus rcr_plus rcr_minus rca rcn rtr rta ruc rxj_plus rxj_minus rxr : Event

abbrev pub next : Event → State → State
next up initial = closed
next up starting = req_sent
next down closed = initial
next down stopped = starting
next down closing = initial
next down stopping = starting
next down req_sent = starting
next down ack_rcvd = starting
next down ack_sent = starting
next down opened = starting
next open_ initial = starting
next open_ closed = req_sent
next open_ closing = stopping
next close starting = initial
next close stopped = closed
next close stopping = closing
next close req_sent = closing
next close ack_rcvd = closing
next close ack_sent = closing
next close opened = closing
next to_plus ack_rcvd = req_sent
next to_minus closing = closed
next to_minus stopping = stopped
next to_minus req_sent = stopped
next to_minus ack_rcvd = stopped
next to_minus ack_sent = stopped
next rcr_plus stopped = ack_sent
next rcr_plus req_sent = ack_sent
next rcr_plus ack_rcvd = opened
next rcr_plus opened = ack_sent
next rcr_minus stopped = req_sent
next rcr_minus ack_sent = req_sent
next rcr_minus opened = req_sent
next rca req_sent = ack_rcvd
next rca ack_rcvd = req_sent
next rca ack_sent = opened
next rca opened = req_sent
next rcn ack_rcvd = req_sent
next rcn opened = req_sent
next rtr ack_rcvd = req_sent
next rtr ack_sent = req_sent
next rtr opened = stopping
next rta closing = closed
next rta stopping = stopped
next rta ack_rcvd = req_sent
next rta opened = req_sent
next rxj_plus ack_rcvd = req_sent
next rxj_minus closing = closed
next rxj_minus stopping = stopped
next rxj_minus req_sent = stopped
next rxj_minus ack_rcvd = stopped
next rxj_minus ack_sent = stopped
next rxj_minus opened = stopping
next _ s = s
