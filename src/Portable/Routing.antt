-- ===== src/Portable/Routing.antt =====
-- libxbot-service/src/portable/linux/Io.cpp and src/ServiceIo.cpp: the IO thread hands each packet to the queue
-- of one service. A packet is its bytes and its pointer; an operation gives back how often it freed it.
use xbot_framework.Prelude.{
  ℕ, ◌-◌, ◌≡◌, List, [], ◌∷◌, ◌++◌, Bool, not, ◌&&◌, ◌==◌, ltb, if◌then◌else◌, length, All, true,
  false, ◌⊎◌,
}
use xbot_framework.Wire.Header.{decode_header, header_size}
use xbot_framework.Portable.Queue.{BlockingQueue, queue_push_item, is_full}
use xbot_framework.Portable.Queue.Contents.{contents}
use xbot_framework.Portable.Queue.Inv.{IsValid}

-- What Io knows of a service.
pub record ServiceIo : Type 0 where
  pub service_id : ℕ
  pub stopped : Bool
  pub packet_queue : BlockingQueue

-- `ServiceIo::ioInput`
unfoldable pub io_input : ℕ → ServiceIo → ServiceIo × ℕ
io_input packet s =
    let (q, done) = queue_push_item s.packet_queue packet in
    (record s { packet_queue = q }, if done then 0 else 1)

-- The loop of `runIo` over the services: the first one with the ID that is not stopped gets the packet.
unfoldable pub deliver_packet : ℕ → ℕ → List ServiceIo → List ServiceIo × ℕ
deliver_packet service_id packet [] = ([], 1)
deliver_packet service_id packet (s ∷ rest) =
    let (rest', freed) = deliver_packet service_id packet rest in
    if s.service_id == service_id && not s.stopped
    then ((io_input packet s).0 ∷ rest, (io_input packet s).1)
    else (s ∷ rest', freed)

-- `runIo`, for one received packet.
unfoldable pub run_io : ℕ → List ℕ → List ServiceIo → List ServiceIo × ℕ
run_io packet bytes services =
    if ltb (length bytes) header_size
    then (services, 1)
    else (let h = decode_header bytes in
        if length bytes - header_size == h.payload_size
        then deliver_packet h.service_id packet services
        else (services, 1))

-- `Io::registerServiceIo`
unfoldable pub register_service_io : ServiceIo → List ServiceIo → List ServiceIo
register_service_io s services = services ++ (s ∷ [])

abbrev pub AllValid : List ServiceIo → Type 0
AllValid services = All (λ (s : ServiceIo). IsValid s.packet_queue) services

-- The service has the ID and is not stopped.
abbrev takes : ℕ → ServiceIo → Bool
takes service_id s = s.service_id == service_id && not s.stopped

abbrev pub IsPassed : ℕ → List ServiceIo → Type 0
IsPassed service_id services = All (λ (s : ServiceIo). takes service_id s ≡ false) services

-- The first service that has the ID and is not stopped.
pub record Receiver (service_id : ℕ) (services : List ServiceIo) : Type 0 where
  pub before : List ServiceIo
  pub service : ServiceIo
  pub behind : List ServiceIo
  pub split : services ≡ before ++ (service ∷ behind)
  pub passed : IsPassed service_id before
  pub own : service.service_id ≡ service_id
  pub active : service.stopped ≡ false

-- The packet is the last in the queue of a service that is otherwise as before.
abbrev pub Queued : ℕ → ServiceIo → ServiceIo → Type 0
Queued packet s s' =
    (s'.service_id ≡ s.service_id)
    × (s'.stopped ≡ s.stopped)
    × (contents s'.packet_queue ≡ contents s.packet_queue ++ (packet ∷ []))

-- What becomes of the packet at its receiver: it is freed if the queue is full, else it waits there.
abbrev pub Handed :
    {i : ℕ} {services : List ServiceIo} → ℕ → Receiver i services → List ServiceIo × ℕ → Type 0
Handed {i} {services} packet v r =
    ((is_full (v.service).packet_queue ≡ true) × (r ≡ (services, 1)))
    ⊎ ((is_full (v.service).packet_queue ≡ false)
        × ((s' : ServiceIo) × Queued packet v.service s' × (r ≡ (v.before ++ (s' ∷ v.behind), 0))))

abbrev pub IsDelivered : ℕ → ℕ → List ServiceIo → List ServiceIo × ℕ → Type 0
IsDelivered i packet services r =
    (IsPassed i services × (r ≡ (services, 1))) ⊎ ((v : Receiver i services) × Handed packet v r)

-- The packet has no header, or is not as long as its header says.
abbrev pub IsMalformed : List ℕ → Type 0
IsMalformed bytes =
    (ltb (length bytes) header_size ≡ true)
    ⊎ ((length bytes - header_size == (decode_header bytes).payload_size) ≡ false)
