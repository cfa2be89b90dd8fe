-- ===== src/Sockets/Tests.antt =====
-- An operating system on which every call succeeds, for the theorem on common/socket_utils.h.
use low_latency_trading_engi.Base.{ℕ, ◌+◌, false, none, [], ◌∷◌, pos}
use low_latency_trading_engi.Sockets.{Os}

-- Its state counts the sockets that were made; descriptors begin at 3.
abbrev pub succeeding : Os ℕ ℕ
succeeding = record {
  get_interfaces = λ w. (none, w);
  get_addr_info = λ ip port passive udp w. ((pos 0, 7 ∷ []), w);
  make_socket = λ rp w. (pos (w + 3), w + 1);
  fcntl_get = λ fd w. (pos 2, w);
  fcntl_set = λ fd flags w. (pos 0, w);
  is_non_blocking = λ flags. false;
  with_non_blocking = λ flags. flags;
  set_sock_opt = λ fd option w. (pos 0, w);
  connect = λ fd rp w. (pos 0, w);
  bind = λ fd any_address port rp w. (pos 0, w);
  listen_on = λ fd backlog w. (pos 0, w);
}
