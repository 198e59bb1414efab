-- ===== src/Lib.antt =====
-- qubes-vm-update, the program of dom0 that updates qubes, and the agent that it sends into them.
--
-- The program picks its targets, updates them in three batches (dom0, then templates and
-- standalones, then the rest), and propagates the updates of templates to the qubes derived from
-- them. A batch is a pool of worker processes, which send messages on a queue and results to a
-- callback. A worker connects to its qube, copies the agent there, runs it, and stops the qube if
-- it has started it. The agent chooses a package manager, refreshes, upgrades and cleans up.
--
--   Args          `parse_args` of vmupdate/vmupdate.py, vmupdate/agent/source/args.py
--   Targets       `preselect_targets`, `select_targets` and `get_targets` of vmupdate/vmupdate.py;
--                 Targets/Stale: the features and `is_stale` of vmupdate/utils.py
--   Apply         `apply_updates_to_appvm`, `get_derived_vm_to_apply` and `restart_vms` of
--                 vmupdate/vmupdate.py, `shutdown_domains` of vmupdate/utils.py
--   Main          `main` and `run_update` of vmupdate/vmupdate.py
--   Manager       `UpdateManager` and `feeding` of vmupdate/update_manager.py; Manager/Progress: its
--                 progress bars; Manager/Shown and Board: what a run shows, without the order of its
--                 dicts
--   Agent         `update_qube` and `UpdateAgentManager` of vmupdate/update_manager.py
--   Connection    vmupdate/qube_connection.py; Connection/Streams: the threads that read a process
--   Status, Exit, Process   status.py, common/exit_codes.py and common/process_result.py of
--                 vmupdate/agent/source
--   Package       vmupdate/agent/source/common/package_manager.py; Package/Cli: dnf/dnf_cli.py,
--                 apt/apt_cli.py and pacman/pacman_cli.py, with the lists of packages in
--                 Package/Cli/Listing; Package/Api: the package managers by
--                 their libraries, dnf/dnf_api.py, dnf/dnf5_api.py and apt/apt_api.py
--   Progress      vmupdate/agent/source/common/progress_reporter.py; Progress/Dnf, Dnf5 and Apt: the
--                 progress classes of the libraries; Progress/Calls: any sequence of callbacks
--   Plugins       vmupdate/agent/source/plugins: Plugins/Deltarpm, Debian and Fedora have the
--                 plugins, Plugins/All runs them in their order
--   Entrypoint    vmupdate/agent/entrypoint.py, `get_os_data` of vmupdate/agent/source/utils.py
--   Exec          exceptions and results; Vm, System and Host: what qubesadmin and the operating
--                 system give; Prelude: what the other modules share; Tests: runs at samples
--
-- Code that is not part of the repository is a parameter: the qubes and their features (Vm), the
-- system that starts and stops them (System), processes, files and `float` (Host), the clock
-- (Clock), the commands of the agent's system (Shell, PluginHost), the libraries of the package
-- managers (DnfLibrary, Dnf5Library, AptLibrary, DownloadCallbacks), the arithmetic of floats
-- (Floats), and what the workers of a batch do (Workers). A call that changes the system gives back
-- its new state, also if it raises. The calls that stop, start and wait are recorded in order.
--
-- Sets of qubes are lists without repeated names; the order in which a set is taken is one order.
-- The pool is a sequence of events: a message that the queue gives, or a result that comes back.
-- The two threads of a connection are one sequence of lines. Exit codes are natural numbers, so a
-- command killed by a signal, which has a negative one, is not modelled; the
-- progress is a number of hundredths. Every function is structural recursion, on the list of
-- qubes, events or lines, so there is no fuel. `feeding`, which waits for messages, is the case
-- `blocked` if the events end before it does.
--
-- The files that plugins edit are a dict from paths to texts; texts are code points. The callbacks
-- of a library during a download are any sequence of steps, and a step that raises leaves the state
-- that it had reached. The upgrades by a library are not tied to these callbacks. What a constructor
-- asks of a library is one operation of its record, and may raise. A file that is opened for writing is
-- empty, and a write that then fails leaves any text in it.
--
-- Not modelled: argparse, logs, most of what is printed, signals, and the shell scripts, C programs and
-- configuration of the rest of the repository.
pub mod Agent
pub mod Apply
pub mod Args
pub mod Connection
pub mod Entrypoint
pub mod Exec
pub mod Exit
pub mod Host
pub mod Main
pub mod Manager
pub mod Package
pub mod Plugins
pub mod Prelude
pub mod Process
pub mod Progress
pub mod Status
pub mod System
pub mod Targets
pub mod Tests
pub mod Vm
