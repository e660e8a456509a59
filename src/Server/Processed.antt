-- ===== src/Server/Processed.antt =====
-- The queue of devices is worked off, in order.
use ubiquitous_chainsaw.Base.{◌≡◌, refl, List, [], ◌∷◌, ◌++◌, length, ok}
use ubiquitous_chainsaw.Queue
use ubiquitous_chainsaw.Scanner.Info.{DeviceInfo}
use ubiquitous_chainsaw.Server.State.{CServer, process, process_queue, enqueue_devices}

process-all : (queue : List DeviceInfo) → process (length queue) queue ≡ ok (queue, [])
unfolding process Queue.empty Queue.pop
process-all [] = refl
process-all (info ∷ infos) = rw (process-all infos)

-- The loop of `process_queue` ends with an empty queue; a coroutine has been started for each device
-- that was in it and then for each new one, in their order, and nothing else has changed.
pub enqueue_devices-all {ℓ} :
    {C : Type ℓ} (infos : List DeviceInfo) (self : CServer C)
    → enqueue_devices infos self ≡ ok (self.devices ++ infos, record self { devices = [] })
unfolding enqueue_devices process_queue Queue.push_all
enqueue_devices-all infos self = rw (process-all (self.devices ++ infos))
