-- ===== src/Lib.antt =====
-- A model of the server side of the VPN management panel: the panel backend (panel/backend/app),
-- which keeps the accounts, their devices and the peers of the devices on the nodes, the worker
-- (panel/worker/app), which takes commands from queues, carries them out on the nodes and reports
-- their results to the backend, and the requests on the peers and the interface of the agent on a
-- node (node/agent).
--
-- How the parts interact. A request creates or deletes a device; a lifecycle pass blocks or restores
-- an account. Each marks rows of peers and answers with the nodes that need a sync. A sync is a
-- tracked operation whose command the worker takes from a queue. Its result comes back to a handler,
-- which applies the node's replies to the peers, confirms removals, releases the addresses of
-- deleted devices, and may block an account whose traffic went over its limit. To carry out a sync
-- the worker fetches a snapshot of what the panel wants of a node, compares it with the status that
-- the node's agent answers, and puts and deletes peers; the agent keeps them in its configuration.
--
-- The files and what they model, with paths below panel/backend/app unless they say otherwise:
--   Prelude                  tests, lists and sets of ids that the modules share
--   Panel/Models             models.py: the rows, and the database as a record of tables
--   Panel/Errors             what a request raises; computations over the database that may raise
--   Panel/Crypto             crypto.py: allocate_ip
--   Panel/Accounts           routers/api_parts/users.py and nodes.py, internal_worker_parts/remnawave.py: the
--                            requests that change or delete an account and delete a node
--   Panel/Limits             services/devices.py: the device limit and the check of capacity
--   Panel/Addresses          services/devices.py: allocate_device_ip, release_device_ip(s)
--   Panel/Provisioning       services/devices.py: create_pending_peer, its loops over nodes and
--                            devices, restore_missing_peers_for_user
--   Panel/Creation           services/devices.py: lock_owner, create_device and its retries
--   Panel/Deletion           services/devices.py: delete_device, delete_device_by_id
--   Panel/Readiness          services/devices.py: peer_available, node_status, the device views
--   Panel/Lifecycle          services/local_lifecycle.py
--   Panel/Policy             services/account_policy.py
--   Panel/NodeSync           services/node_sync.py: counters, aggregates, sessions,
--                            apply_interface_result and apply_peer_result
--   Panel/Remnawave          services/remnawave_sync.py
--   Panel/Retention          services/traffic_retention.py
--   Panel/Operations         services/operations.py and
--                            routers/internal_worker_parts/operations.py
--   Panel/NodeResults        routers/internal_worker_parts/nodes.py: the handlers of results
--   Panel/Ownership          the invariant of devices, addresses and peers, and the operations that
--                            keep it
--   Panel/History            the transactions above as steps between databases
--   Panel/NodeSnapshot       services/node_config.py: node_interface, peer_payload, node_snapshot;
--                            the snapshots of routers/internal_worker_parts/nodes.py
--   Panel/TelegramProxy      services/telegram_proxy.py, routers/telegram_proxy.py and
--                            routers/internal_worker_parts/telegram_proxy.py
--   Worker/Queue             panel/worker/app/queue.py and commands.py
--   Worker/NodeClient        panel/worker/app/node_client.py; requests that answer or raise
--   Worker/Handlers          panel/worker/app/handlers.py: _apply_snapshot and what it calls
--   Worker/Dispatch          panel/worker/app/handlers.py: handle, _dispatch and the commands on nodes
--   Worker/TelegramProxy     panel/worker/app/handlers.py: the commands on the Telegram proxy
--   Worker/Reconcile         panel/worker/app/handlers.py: the loop of _remnawave_full_reconcile
--   Worker/Recovery          panel/worker/app/backend_client.py: command_from_operation, and main.py:
--                            recover_stale_operations
--   Node/Config              node/agent/agent.py: _configured_peers, _persist_peer, _unpersist_peer
--   Node/Agent               node/agent/agent.py: sync_peer, delete_peer, status
--   Node/Interface           node/agent/agent.py: configure_interface and the text of the file
-- The children of a module hold its theorems, and Tests hold concrete runs.
--
-- How the code is read. A service that writes rows is a function from a database to a database; one
-- that raises answers with an error and no database, since the request is rolled back. Row ids are
-- texts that the code only compares and orders, and are numbers here; instants are numbers of
-- microseconds; byte counters are unbounded, as in Python. A status column is an enumeration of the
-- values that the code names, with a constructor for any other text. A Python set of ids is a list
-- that is read by membership. The constraints that a flush checks are written out in the order of
-- their declaration.
--
-- The worker's requests over HTTP are computations on an abstract world that answer or raise, and an
-- exception leaves the world as the request left it. A node answers what it likes, and the theorems
-- on a synchronisation speak of the requests that the worker makes: its code runs with an agent that
-- writes each request down (Worker/Handlers/Requests). Only the deletion of a peer is followed to
-- the agent's own handler, with the framework's routing as a parameter (Worker/Handlers/Routed).
-- A configuration file is the list of its lines as splitlines reads them (the removal of a peer, which
-- reads lines by their line feeds, is modelled on files without other breaks), or its text in
-- Node/Interface. Lower case is that of the ASCII letters.
--
-- What comes from outside is a parameter: the clock, the random ids and keys, the host addresses
-- that the standard library lists for the subnet, what other transactions commit between the reading
-- of the held addresses and the insertion of a device, which rows were locked, and what the message
-- broker answers. In a history, what commits meanwhile is a history too. A handler's commits in
-- the middle of its work (when it queues commands) are not told apart: it is one step.
--
-- Bounds and fuel. The insertion of a device has the source's five attempts. The life of a message
-- takes fuel, and as much as there are attempts left is enough. The loop over the pages of Remnawave
-- users takes fuel, and one more than there are users is enough. Everything else is structural
-- recursion over a table, a list or a text.
--
-- Not modelled: the frontends, the HTTP and authentication layer, the event hub, the texts of client
-- configurations, archives and QR codes, the agent's live update of its interface, its calls of the supervisor and its
-- parsing of what awg prints, the encryption of secrets, the cleanup and single-user commands of the
-- worker, its timers, and the discovery loop that decides which rows are locked.
pub mod Prelude
pub mod Panel
pub mod Worker
pub mod Node
