-- ===== src/Lib.antt =====
-- L2S-M: a Kubernetes operator that connects pods by virtual layer-2 networks. Controllers reconcile
-- custom resources (api/v1) with an SDN controller and with switches that run as pods; a webhook
-- gives pods their attachments and addresses.
--
-- Files, and the code that they are about:
--   Base            shared helpers: texts as lists of bytes, maps as association lists, integers with
--                   their wrap, results, and actions on a world that return, go on or panic
--   Net             what the program uses of Go's package net
--   Utils           internal/utils: ip.go (Utils/Ip), naming.go, utils.go (Utils/Strings,
--                   Utils/Objects)
--   Api             api/v1: the resources as records, with the parts of pods and nodes in use
--   Annotation      internal/networkannotation
--   Sdn             internal/sdnclient: `Client` is the interface, Internal and External implement it
--                   over a session
--   Datapath        the names that the l2sm-switch module derives: an interface
--   SwitchFiles     the configuration files of the switches, as that module declares them
--   Cluster         the client of the API server: an interface
--   Trace           a log of the calls of both interfaces that change something; Trace/Plan is a plan
--                   of such calls, of which a part of a controller makes all or some of the first
--   Cases           how a call can end, for proofs
--   Env             internal/env
--   Dns             internal/dnsinterface
--   Ids             internal/ids
--   Lpm             internal/lpminterface: the changes of a switch pod for monitoring, the collectors
--                   (Lpm/Collector) and the exporters (Lpm/Exporter)
--   Monitoring      internal/monitoringnetwork, and GenerateLPMPorts of internal/lpminterface
--   Controller      internal/controller: Defaults is the defaults of overlays and network edge devices
--                   with switchtemplate.go of internal/talpainterface; of pod_utils.go, NextIp is
--                   GetNextAvailableIP, Networks is GetL2Networks with GetFreeNetAttachDefs, and
--                   ErrorEvent is CreateErrorEvent; Pod is pod_controller.go, Webhook is
--                   pod_webhook.go, Admission is both on one pod, Quarantine is
--                   quarantinepodrequest_controller.go, Network is l2network_controller.go with
--                   grpcapi.go of internal/talpainterface (its call of a device is Network/Attach),
--                   Overlay is overlay_controller.go, Ned is networkedgedevice_controller.go;
--                   SwitchPod is what the last two share, with GenerateAnnotations, and Owned is the
--                   loop by which they create what they have built
--   Startup         cmd/main.go, and SetupWithManager of every reconciler
--
-- State. The API server and the SDN controller change a world of any type, so theorems hold for
-- every behaviour of them, failures included. A Go function that calls them is an action
-- (Base/Effects): a step goes on, returns early, or panics; a nil pointer that is used panics. Objects
-- that a call updates are replaced by what the server answers. Messages and logs are left out.
--
-- Parameters: the text form of IPv6 addresses (`Ipv6`), encoding/json (`Json`, `SwitchFiles`,
-- `LpmLibrary`), HTTP and base64 (`Http`), the API server with controllerutil (`Cluster`), the switch
-- module (`Datapath`), environment variables (`Lookup`), random numbers, the creation of events, the DNS
-- service and the config map manager of the l2sm-dns module, the gRPC service of the network edge devices
-- (fields of `PodDeps`, `WebhookDeps`, `NetworkDeps`, `OverlayDeps` and `NedDeps`), and the manager of
-- controller-runtime (`Manager`).
--
-- Bounds. `int`, `int32`, `uint32` and bytes wrap where the code adds. The loop of GetNextAvailableIP
-- takes fuel, and `none` means that it ran out: 256 rounds are enough where it ends at all, since only
-- the last byte of the address changes. The webhook passes its fuel on, and answers `hangs` without it.
--
-- Not modelled: the deep copies of api/v1, which are generated, and the registration of its types; the
-- texts of logs and errors.
pub mod Base
pub mod Net
pub mod Utils
pub mod Api
pub mod Annotation
pub mod Sdn
pub mod Datapath
pub mod SwitchFiles
pub mod Cluster
pub mod Trace
pub mod Cases
pub mod Env
pub mod Dns
pub mod Ids
pub mod Lpm
pub mod Monitoring
pub mod Controller
pub mod Startup
