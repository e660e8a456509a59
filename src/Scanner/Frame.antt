-- ===== src/Scanner/Frame.antt =====
-- What a turn of the loop of client/src/main.cpp decides before it draws.
use ubiquitous_chainsaw.Base.{Bool, false, not, ◌&&◌, if◌then◌else◌}
use ubiquitous_chainsaw.Gatt.{Device}
use ubiquitous_chainsaw.KeyFiles.Files.{KeyFiles, keys_exists}
use ubiquitous_chainsaw.Server.State.{CServer, connected_with, is_authenticated}
use ubiquitous_chainsaw.RssiPlot.Plot.{RssiPlot, hibernates}
use ubiquitous_chainsaw.Scanner.Tasks.{CDeviceList, recreate_list}

-- What the loop works on, with whether the turn sends the machine to sleep.
pub record Turn : Type 0 where
  pub sleeps : Bool
  pub list : CDeviceList
  pub plot : RssiPlot

module _ {C : Type 0} (device_connected : Device C → Bool) (new_plot : RssiPlot) where
  -- The branch without an authenticated server.
  unfoldable pub search_again : CDeviceList → RssiPlot → Turn
  search_again list plot =
      if list.scanning
      then record { sleeps = false; list = list; plot = plot }
      else record { sleeps = false; list = recreate_list list; plot = new_plot }

  unfoldable pub turn : KeyFiles → CServer C → CDeviceList → RssiPlot → Turn
  unfolding search_again
  turn files server list plot =
      let connected = connected_with device_connected server in
      if keys_exists files && not connected && not (is_authenticated server)
      then search_again list plot
      else record {
        sleeps = hibernates (keys_exists files) connected plot;
        list = list;
        plot = plot;
      }
