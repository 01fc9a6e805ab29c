-- ===== src/Net/UdpSocket.antt =====
-- `Endpoint` and `UdpSocket` of include/swiftlink/net/udp_socket.hpp and src/net/udp_socket.cpp over the
-- system calls. The socket is its descriptor, if it has one. A timeout is a number of microseconds, and
-- no caller passes a negative one. The moves, which hand over a descriptor, are left out.
use swiftlink.Common.{
  ℕ, ◌+◌, ◌*◌, ◌/◌, ◌%◌, ◌<◌, ◌≡◌, arith, Bool, true, false, Option, none, some, List, ◌==◌,
  if◌then◌else◌, max,
}

pub record Endpoint : Type 0 where
  pub address : List ℕ
  pub port : ℕ

-- `struct timeval`
pub record Timeval : Type 0 where
  pub tv_sec : ℕ
  pub tv_usec : ℕ

-- the errors that the operations set themselves
pub data Errno : Type 0 where
  ebadf einval : Errno

-- The system calls and the conversions of addresses. `none` and `false` are failures, with errno set by
-- the call; a socket address is what inet_pton and htons make.
pub record Sockets : Type 1 where
  pub Kernel : Type 0
  pub Descriptor : Type 0
  pub Address : Type 0
  pub any_address : ℕ → Address
  pub to_sockaddr : Endpoint → Option Address
  pub from_sockaddr : Address → Endpoint
  pub socket : Kernel → Option Descriptor × Kernel
  pub bind_to : Descriptor → Address → Kernel → Bool × Kernel
  pub close_fd : Descriptor → Kernel → Kernel
  pub set_timeout : Descriptor → Timeval → Kernel → Bool × Kernel
  pub get_flags : Descriptor → Kernel → Option ℕ × Kernel
  pub set_flags : Descriptor → ℕ → Kernel → Bool × Kernel
  pub with_nonblock : Bool → ℕ → ℕ
  pub sendto : Descriptor → List ℕ → Address → Kernel → Option ℕ × Kernel
  pub recvfrom : Descriptor → ℕ → Kernel → Option (List ℕ × Address) × Kernel

-- What an operation returns: errno of its own making, the failure of a call, or a value.
pub data Outcome (A : Type 0) : Type 0 where
  refused : Errno → Outcome A
  failed : Outcome A
  gives : A → Outcome A

-- the clamp of `set_receive_timeout`
abbrev pub clamp : ℕ → ℕ
clamp timeout = if timeout == 0 then 1 else timeout

-- the split with duration_cast
unfoldable pub timeval_of : ℕ → Timeval
timeval_of timeout = record { tv_sec = clamp timeout / 1000000; tv_usec = clamp timeout % 1000000 }

module _ (sk : Sockets) where
  -- `UdpSocket::valid` is whether there is a descriptor
  unfoldable pub close : Option sk.Descriptor → sk.Kernel → Option sk.Descriptor × sk.Kernel
  close none k = (none, k)
  close (some fd) k = (none, sk.close_fd fd k)

  unfoldable pub open' : Option sk.Descriptor → sk.Kernel → Option sk.Descriptor × sk.Kernel
  open' fd k = sk.socket (close fd k).1

  abbrev pub outcome_of : Bool × sk.Kernel → Outcome Bool × sk.Kernel
  outcome_of (true, k) = (gives true, k)
  outcome_of (false, k) = (failed, k)

  abbrev pub value_of : {A : Type 0} → Option A × sk.Kernel → Outcome A × sk.Kernel
  value_of (some a, k) = (gives a, k)
  value_of (none, k) = (failed, k)

  unfoldable pub bind : Option sk.Descriptor → ℕ → sk.Kernel → Outcome Bool × sk.Kernel
  bind none port k = (refused ebadf, k)
  bind (some fd) port k = outcome_of (sk.bind_to fd (sk.any_address port) k)

  unfoldable pub set_receive_timeout :
      Option sk.Descriptor → ℕ → sk.Kernel → Outcome Bool × sk.Kernel
  set_receive_timeout none timeout k = (refused ebadf, k)
  set_receive_timeout (some fd) timeout k = outcome_of (sk.set_timeout fd (timeval_of timeout) k)

  unfoldable pub set_nonblocking :
      Option sk.Descriptor → Bool → sk.Kernel → Outcome Bool × sk.Kernel
  set_nonblocking none enabled k = (refused ebadf, k)
  set_nonblocking (some fd) enabled k =
      let flags = sk.get_flags fd k in
      elim flags.0 [
        | none ↦ (failed, flags.1)
        | some f ↦ outcome_of (sk.set_flags fd (sk.with_nonblock enabled f) flags.1)
      ]

  unfoldable pub send_to :
      Option sk.Descriptor → List ℕ → Endpoint → sk.Kernel → Outcome ℕ × sk.Kernel
  send_to none bytes destination k = (refused ebadf, k)
  send_to (some fd) bytes destination k = elim (sk.to_sockaddr destination) [
    | none ↦ (refused einval, k)
    | some address ↦ value_of (sk.sendto fd bytes address k)
  ]

  unfoldable pub recv_from :
      Option sk.Descriptor → ℕ → sk.Kernel → Outcome (List ℕ × Endpoint) × sk.Kernel
  recv_from none capacity k = (refused ebadf, k)
  recv_from (some fd) capacity k =
      let call = sk.recvfrom fd capacity k in
      elim call.0 [
        | none ↦ (failed, call.1)
        | some (bytes, address) ↦ (gives (bytes, sk.from_sockaddr address), call.1)
      ]

-- The timeout that the kernel is given is the one that was asked for, and a microsecond where none was,
-- with the microseconds below a second: it is never the zero that means to wait for ever.
timeval_of_lem :
    (timeout : ℕ)
    → ((timeval_of timeout).tv_sec * 1000000 + (timeval_of timeout).tv_usec ≡ max 1 timeout)
      × ((timeval_of timeout).tv_usec < 1000000)
      × (0 < (timeval_of timeout).tv_sec + (timeval_of timeout).tv_usec)
unfolding timeval_of
timeval_of_lem timeout = ground arith
