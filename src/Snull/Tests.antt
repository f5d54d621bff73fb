-- ===== src/Snull/Tests.antt =====
-- The network driver at concrete interfaces.
use linux_device_driver.Common.{◌≡◌, true, false, [], ◌∷◌, arith, List, ℕ, replicate, ◌++◌}
use linux_device_driver.Kernel.{Holds}
use linux_device_driver.Snull.{Packet, Priv, Net, Setting, tx, poll}
use linux_device_driver.Snull.Conserve.{packets, tx-packets, poll-packets}

abbrev packet : Packet
packet = record { second = false; bytes = 1 ∷ 2 ∷ [] }

abbrev interface : Priv
interface = record {
  ppool = packet ∷ [];
  rx_queue = packet ∷ packet ∷ [];
  rx_intr = false;
  tx_intr = false;
  rx_int_enabled = true;
  tx_packetlen = 0;
  tx_packets = 0;
  tx_bytes = 0;
  tx_errors = 0;
  rx_packets = 0;
  rx_bytes = 0;
  rx_dropped = 0;
  stopped = false;
}

abbrev net : Net
net = record { sn0 = interface; sn1 = interface }

abbrev setting : Setting
setting = record { skb_ok = true; use_napi = false; lockup = 0; checksum = λ bs. bs }

-- An IP header of five words behind the Ethernet header.
abbrev frame : List ℕ
frame = replicate 14 7 ++ 69 ∷ replicate 49 7

tx-packets_example : Holds (λ r. packets r.1 ≡ packets net) (tx setting false frame net)
tx-packets_example = tx-packets setting false frame net (omega arith) (omega arith) (omega arith)

poll-packets_example : packets (poll (λ i. true) true 4 1 net).4 ≡ packets net
poll-packets_example = poll-packets (λ i. true) true 4 1 net
