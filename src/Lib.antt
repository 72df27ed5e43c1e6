-- ===== src/Lib.antt =====
-- The firmware of a Zigbee hub: an ESP32 that drives a CC2652P7 coprocessor over a serial line.
--
-- Parts, by the files of components/, and the modules that model them:
--   * znp_transport/znp_mt_protocol.c: the frame codec, in Znp.Codec, over the frames of Znp.Frame.
--     Znp.Mt has the numbers of include/znp_mt_protocol.h that the hub uses.
--   * znp_transport/znp_transport.c: Znp.Link has the static state of the file as one record, a
--     round of the receive task for each byte (rx_byte), a round of the dispatch task for each frame
--     (dispatch_frame), and the request with the frames that come while it waits
--     (send_sreq_timeout); Znp.Link.Reset has the reset of the coprocessor, Znp.Expander the PCA9538
--     expander that moves its pins, Znp.Setup the set-up of both. Znp.Session is the view
--     of the callers of znp_transport_send_sreq: the requests that they send and a list of the
--     answers that come.
--   * zb_device_mgr/zb_subscribe.c: Event, the table of subscribers and the queue of events.
--   * zb_device_mgr/zb_device_mgr.c: Device has the registry of devices (s_devices), Hub the state
--     that the components share and what the manager sends, Hub.Inbound what it does with AREQs.
--   * zb_device_mgr/zb_cap.c and zb_cap_clusters.c: Zcl has capability handles and typed values,
--     Hub.Translate the decoding of attributes, Hub.Table the schemas, Hub.Schema the table of
--     those that are registered, Hub.Clusters the frames of each cluster, Hub.Typed the function of the API for each cluster.
--   * zb_storage: Storage has the records and the calls of the store, in order. Storage.Files
--     has zb_storage.c and zb_storage_device.c over a directory, Storage.Config
--     zb_storage_config.c over config.json; what nanopb, cJSON and sscanf answer is a record of
--     functions with the laws that the code relies on, and what memory and the file system do at a
--     call, when a file is closed too, is a record of conditions. The order in which readdir lists
--     the files is an argument. Storage.Devices has the list of records that the directory stands
--     for, Storage.Listing that list in another order.
--   * zb_button/zb_button.c: Button, the state machine of the button task, and Button.Task, the pin,
--     the events that the task emits, and the set-up.
--   * zb_cmd/zb_cmd.c: Command, the command queue.
--   * zb_framework/zb_network.c: Network, the commands to the coprocessor; Network.Clock, the wait
--     for the coordinator by the tick count.
--   * zb_framework/zb_framework.c: Framework has the join window, the status and the retries,
--     Framework.Bringup the configuration in use and the handlers that check, form and resume,
--     Framework.Ready the commands and the loop of READY over an interface to the configuration
--     store, Framework.Task framework_task round by round, Framework.Api the calls of other tasks.
--     Framework.ConfigFile puts config.json behind the interface.
--   * main/main.c (beside components/): App, the callbacks and the subscriptions, and App.Boot,
--     app_main from its start on.
-- Hub.Start has zb_dev_mgr_init, which restores the registry of Hub from the files of Storage.
-- Base has what the modules share: tests, lists, status codes, bits, words, integers, strings,
-- queues. Tests has runs.
--
-- The parts interact as in the code: bytes become frames in Znp.Link, which answer a request or
-- wait as AREQs; an AREQ goes to Hub.Inbound.on_areq, which changes the registry, calls the store,
-- sends further requests and puts events on the bus, which Event.notify delivers.
--
-- Bounds. The depths of queues and tables are those of the sources or the defaults of Kconfig, and
-- the tick rate is that of sdkconfig.defaults. Numbers are natural numbers with the wrap-around of C
-- written out where the code can reach it. The only loop on fuel is that over attribute reports: a
-- round takes at least four of the bytes that are left, and the fuel is their number.
-- A read or write behind an array is a result of its own (fault, overrun, none), and so is a read
-- behind the payload of a frame in the parsers of Hub.Inbound that take their lengths from it.
--
-- Not modelled: the fields of driver structs, delays and time-outs as such (FreeRTOS), and log
-- output. Of zb_net_startup_and_wait the steps of the code between its reads of the clock take no
-- time.
pub mod Base
pub mod Znp
pub mod Zcl
pub mod Event
pub mod Storage
pub mod Device
pub mod Hub
pub mod Button
pub mod Command
pub mod Network
pub mod Framework
pub mod App
pub mod Tests
