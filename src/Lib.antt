-- ===== src/Lib.antt =====
-- opsiconfd is the server of opsi, which manages clients. Seven parts of it are modelled: the
-- sessions of clients with their login and the access to the application, from opsiconfd/session.py,
-- the access control entries that a session has for a method and what they show of the database, from
-- opsiconfd/backend/rpc/main.py and opsiconfd/backend/mysql/__init__.py,
-- which product actions a client runs and in which order, from
-- opsiconfd/backend/rpc/obj_product_dependency.py, the values that configs have on hosts, from
-- opsiconfd/backend/rpc/obj_config_state.py, the websocket of the message bus, from
-- opsiconfd/messagebus, the worker processes of a node, from opsiconfd/manager.py, and the hosts in
-- dhcpd.conf, from opsiconfd/dhcpd.py. A request passes
-- the first part before its handler asks the others, and the second and the fifth read the session that
-- the first leaves. The third asks the fourth for the depot of a client and is given the answer here.
-- The sixth runs the processes in which all the others run. The last stands alone.
--
-- Sessions. `SessionMiddleware.handle_request` checks overload, maintenance and the network of the
-- client, gets a session from `SessionManager.get_session`, and logs in with `authenticate` where the
-- role of the path asks for it. A session is an `OPSISession`, which is kept in the memory of the
-- manager and, by `_store` and `load`, in redis, where other worker processes find it.
--
-- Product actions. `get_product_action_groups` sorts the products on clients by client and
-- runs one `ActionSorter` for each. The sorter collects an action for each product on the client
-- (`add_product_on_client`), follows the dependencies of these actions
-- (`process_dependencies`, a recursion that shares one path), puts products that a requirement
-- with a type links into one group (`product_id_groups`), merges the actions of a product, sorts
-- each group by priority and then by its dependencies (`ActionGroup.sort`), and sorts the groups
-- by priority. The actions are then numbered through (`actionSequence`).
--
-- Message bus. `MessagebusWebsocket.dispatch` opens the websocket of a session (`on_connect`), handles
-- each message of the client (`on_receive`), which is put into redis for others or changes the channels
-- that the websocket reads (`_process_channel_subscription`), and closes it (`on_disconnect`).
--
-- Workers. `WorkerManager` starts, watches, restarts and stops the processes. Its dict of workers holds
-- what other nodes report of theirs, too.
--
-- DHCP. dhcpd.conf is a tree of blocks, and a block inherits parameters from those above it.
-- `DHCPDConfFile.add_host` chooses the subnet and the group for a new host.
--
-- Which file models what:
--   Actions.Data: `Action`, `ActionGroup`, `ActionGroup.add_action`, and the attributes read from
--     opsicommon's `Product`, `ProductDependency`, `ProductOnDepot` and `ProductOnClient`.
--   Actions.Group: `ActionGroup.sort`. The position -1 is `none`, an entry of the log is data.
--   Actions.Partition: the changes of `product_id_groups` in `process_dependencies`.
--   Actions.Error: the exceptions.
--   Actions.Walk: `ActionSorter.process_dependencies`.
--   Actions.Plan: `process_product_on_clients` and `add_product_on_client`.
--   Actions.Numbers: the loop that builds each `ProductActionGroup`.
--   Configs: `configState_getValues`: the defaults of the configs, then the config states of the
--     depot of each host, then the config states asked for. An exception is `none`.
--   Sessions.Data: the attributes of `OPSISession` and their setters, `AuthenticationMethod`.
--   Sessions.World: redis, the clock, the known depots, the configuration, the exceptions, `expired`.
--   Sessions.Wire: `serialize`, `deserialize`, the `setattr` of `load`.
--   Sessions.Store: `load`, `refresh`, `_store`, `delete`, `is_stored`, `update_last_used`.
--   Sessions.Start: `__init__`, the `headers` setter, `init_new_session`, `init`, the cookie.
--   Sessions.Manager: `SessionManager.get_session` and a turn of `manager_task`.
--   Sessions.Checks: `check_network`, `check_blocked`, `check_min_configed_version` and
--     `check_admin_networks`.
--   Sessions.HostLogin: `authenticate_host`.
--   Sessions.Login: `authenticate` with its three ways to log in.
--   Sessions.Headers: `get_session_id_from_headers` and `get_basic_auth`.
--   Sessions.Request: `check_access`, `SessionMiddleware.handle_request`.
--   Sessions.Failure: `SessionMiddleware.handle_request_exception`.
--   Acl: `RPCACE` of opsiconfd/backend/auth.py, `ProtectedBackend._get_ace` and `_check_role`. Its
--     table of entries holds for each method those whose pattern matches it.
--   Acl.Reader: `read_acl_file`: the text of the file as entries, each with its pattern.
--   Acl.Columns: `get_columns` and `get_allowed_client_ids`; SQL is data.
--   Configs.Clients: `configState_getClientToDepotserver`.
--   Messagebus.Names: `check_channel_name` and the names of users of opsiconfd/messagebus/__init__.py.
--   Messagebus.Data: the attributes of a websocket, messages, and what redis keeps.
--   Messagebus.Readers: the channels of `MessageReader` of opsiconfd/messagebus/redis.py, and the list
--     of readers of a websocket.
--   Messagebus.Access: `_check_channel_access` and `_check_message_type_access`.
--   Messagebus.Unsubscribe, Messagebus.Subscribe: `_process_channel_subscription` and
--     `create_messagebus_session_channel`.
--   Messagebus.Receive: `on_receive`, `send_message`.
--   Messagebus.Connect: `on_connect`, `on_disconnect`, `dispatch`, `update_websocket_count`,
--     `get_websocket_connected_users` of one id, `delete_channel`.
--   Workers.Data: `Worker` and `WorkerInfo` of opsiconfd/worker.py, the dict of `WorkerManager`, and
--     the system that it runs on.
--   Workers.Stop: `stop_worker`, `stop`.
--   Workers.Pool: `start_worker`, `restart_worker`, `adjust_worker_count`, `reload`.
--   Workers.Check: a turn of the loop of `run`.
--   Workers.Reports: `WorkerInfo.from_dict`, `update_worker_state`.
--   Dhcp.Blocks: `DHCPDConfBlock` with `get_parameters_hash`, `get_options_hash` and `get_blocks`.
--   Dhcp.Hosts: `add_host`, up to the block that it adds, `get_host`, `remove_components`.
--   Dhcp.Modify: `modify_host`, which returns the changed block.
-- The files below these hold the proofs, and the modules named Samples tests and sample data.
--
-- State. The fields of `ActionSorter` are the record `Sorter`; a function takes it and returns it
-- or an exception. A dict is a list of pairs in the order of insertion. A Python set of product
-- ids is a list without repeated members: the program iterates over such a set in no fixed order,
-- the model in the order of the list.
--
-- A method of a session is a function of the session and the world, redis with it, that returns a
-- result or an exception and the two after it (`Effect` of Prelude.Effect): what was changed before an
-- exception stays changed. A handler runs to its end without another one between its steps, and the
-- clock stands still meanwhile. The manager and a handler share the session objects: the model puts a
-- session that a handler changed back into the manager. The dict `AUTH_HEADERS`, which all requests
-- share, is a state of Sessions.Failure. Times are whole seconds, and a time that the code adds to is
-- not negative.
--
-- A reader of the message bus is an object with a number, and the list of them is the state of the
-- websocket; that its task has ended is that it is not in the list. Messages are kept in the order in
-- which they were put into redis, each with its channel. A worker is found in the dict by its id,
-- where an object that is changed is put back; the list of workers to restart is read from there, too.
--
-- Parameters. The record `Env` of Sessions.World holds what session.py calls: the search for hosts and
-- users in the database, the authentication module (PAM or LDAP), the check of one-time passwords,
-- the codecs of opsicommon's hosts and of lists, the functions on addresses, and those on text that
-- the model has none for. What a login asks of these after it has let the session in may raise an
-- exception, whose kind is left open. An addon, in the record `App`, may change the role and
-- the session. Only the round trip of
-- `serialize` assumes something of them: `IsReadBack`, what the codecs are documented to do. The functions nested in `get_product_action_groups` that ask the backend and cache
-- its answers are the record `Lookups`. The record `IsClosed` says that they return the product
-- that they are asked for or raise an exception of their own, and which products dependencies
-- require. `==` on opsicommon's objects is a parameter: `same_dependency`, `same_on_client`. So is
-- the constructor of `ProductOnClient` in the numbering. The records `Backend` of Configs and
-- `Idents` of Configs.Clients are what these functions ask the database; nothing is assumed of its answers.
-- The records `Names`, `Env` and `Codec` of Messagebus hold opsicommon's checks and messages;
-- `ReadsSender` says that a message has the sender that its dict has. The record `System` of
-- Workers.Data is the operating system with Python's processes. `IsPosix` says that its clock does not
-- go back and that SIGKILL ends a process for good within half a second, and `Spawns` that a process
-- that was started has an id. The record `Checks` of Dhcp.Hosts holds opsicommon's checks of arguments,
-- the record `Reading` of Acl.Reader the configuration and which texts are regular expressions;
-- nothing is assumed of them.
--
-- Fuel. `process_dependencies` takes fuel. Each call enters a product that is not on the path, so
-- a call nested deeper than the number of required products cannot be. `ActionGroup.sort` needs
-- none: its loop runs at most once for each action. The loop of `stop_worker` waits half a second in each
-- round and kills a worker in each after the timeout, so that the timeout in tenths of seconds and the
-- number of workers are enough. The loops of `adjust_worker_count` add or remove an entry in each round. The loop
-- of `remove_components` removes an item in each round, so that the length of the list is enough.
--
-- Not modelled: the caches and the lookups themselves, the database, the log output, the debug
-- log; of sessions, the host and user objects that a login writes, the roles of users, the header
-- `x-opsi-new-host-id` and the handlers that the middleware calls; of the message bus, how readers
-- read and acknowledge messages, their positions and number in redis, the length that limits a
-- stream, time stamps and the session that go with a message, the manager task, and the handlers of
-- terminals, files and processes; of the workers, the wait for their start, the licence check and what
-- a worker process does itself; of dhcpd.conf, its parser, its text, the lines on which components
-- stand, `delete_host`, and how a new block is put into the tree; and the other parts of opsiconfd: JSON-RPC,
-- metrics, and the queries of the MySQL backend.
pub mod Prelude
pub mod Actions
pub mod Configs
pub mod Sessions
pub mod Acl
pub mod Workers
pub mod Messagebus
pub mod Dhcp
