-- ===== src/Sockets/Mcast.antt =====
-- The operations of `McastSocket` of common/mcast_socket.cpp on an open socket. What `recv` answers is
-- an argument: the bytes that it read, or nothing.
use low_latency_trading_engi.Base.{
  ℕ, Bool, true, false, Option, none, some, List, [], ◌∷◌, ◌++◌, ok, bind_result, M, ℤ, negsuc,
}
use low_latency_trading_engi.Sockets.{Os, join}

-- With the state `X` that its callback works on, and what was handed to `::send`.
pub record McastSocket (X : Type 0) : Type 0 where
  pub socket_fd : ℤ
  pub outbound : List ℕ
  pub inbound : List ℕ
  pub handed : List (ℤ × List ℕ)
  pub user : X

module _ {X : Type 0} where
  unfoldable pub mcast_receive :
      (recv_callback : List ℕ → M X (List ℕ)) → Option (List ℕ) → M (McastSocket X) Bool
  mcast_receive recv_callback none s = ok (false, s)
  mcast_receive recv_callback (some bytes) s =
      bind_result (recv_callback (s.inbound ++ bytes) s.user)
        (λ r. ok (true, record s { inbound = r.0; user = r.1 }))

  unfoldable pub mcast_flush : List ℕ → McastSocket X → McastSocket X
  mcast_flush [] s = record s { outbound = [] }
  mcast_flush (b ∷ bytes) s = record s {
    outbound = [];
    handed = s.handed ++ ((s.socket_fd, b ∷ bytes) ∷ []);
  }

  -- `McastSocket::sendAndRecv`: whether any data was read.
  unfoldable pub mcast_send_and_recv :
      (recv_callback : List ℕ → M X (List ℕ)) → Option (List ℕ) → M (McastSocket X) Bool
  mcast_send_and_recv recv_callback answer s =
      bind_result (mcast_receive recv_callback answer s)
        (λ r. ok (r.0, mcast_flush r.1.outbound r.1))

  module _ {A W : Type 0} (os : Os A W) where
    unfoldable pub mcast_join : List ℕ → McastSocket X → M W Bool
    mcast_join ip s = join os s.socket_fd ip

  -- `McastSocket::leave`: closing the descriptor is the operating system's.
  unfoldable pub mcast_leave : McastSocket X → McastSocket X
  mcast_leave s = record s { socket_fd = negsuc 0 }
