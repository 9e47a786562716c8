-- ===== src/Tests/Baremetal.antt =====
-- An interrupt-driven ring of depth 4 with one message in it, whose signals always come.
use z_ipc.Base.{refl, true, false}
use z_ipc.Status.{ok}
use z_ipc.Baremetal.{Signals, BareEndpoint}
use z_ipc.Baremetal.Calls.{bare_send}
use z_ipc.Baremetal.Order.{bare_receive-send, BareSent, BareReceived, IsBareRing}
use z_ipc.Linux.{pl_ring_irq}
use z_ipc.Tests.{message_none}
use z_ipc.Tests.Rings.{ring_one, IsRing-one}

abbrev signals : Signals
signals = record {
  rpmsg_send = λ n m. true;
  notify = λ n. ok;
  await = λ n. ok;
  secure_call = λ n m. (ok, m);
  peer = λ n r. r;
  peer_mailbox = λ n m. m;
}

abbrev endpoint_bare : BareEndpoint
endpoint_bare = record {
  kind = pl_ring_irq;
  address = 4096;
  ring = ring_one;
  mailbox = message_none;
  response = message_none;
  response_pending = false;
  calls = 0;
}

IsBareRing-endpoint : IsBareRing endpoint_bare
IsBareRing-endpoint = record { kind = refl; ring = IsRing-one }

bare_receive-send_example :
    BareSent signals endpoint_bare message_none (bare_send signals message_none endpoint_bare)
    × BareReceived signals (λ n r. refl) endpoint_bare IsBareRing-endpoint message_none
bare_receive-send_example =
    bare_receive-send signals (λ n r. refl) endpoint_bare IsBareRing-endpoint message_none refl
