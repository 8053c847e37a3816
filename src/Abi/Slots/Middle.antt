-- ===== src/Abi/Slots/Middle.antt =====
-- Slots 112 to 223 of `struct mac_policy_ops` (include/sedarwin/sebsd_mac.h), in order.
use Prim.Native.String.{String}
use sedarwin.Prelude.{List, [], ◌∷◌}

unfoldable pub middle_slots : List String
middle_slots =
    "mpo_reserved44" ∷ "mpo_proc_check_syscall_mac" ∷ "mpo_policy_destroy" ∷ "mpo_policy_init"
    ∷ "mpo_policy_initbsd" ∷ "mpo_policy_syscall" ∷ "mpo_system_check_sysctlbyname"
    ∷ "mpo_proc_check_inherit_ipc_ports" ∷ "mpo_vnode_check_rename" ∷ "mpo_kext_check_query"
    ∷ "mpo_proc_notify_exec_complete" ∷ "mpo_proc_notify_cs_invalidated"
    ∷ "mpo_proc_check_syscall_unix" ∷ "mpo_reserved45" ∷ "mpo_proc_check_set_host_special_port"
    ∷ "mpo_proc_check_set_host_exception_port" ∷ "mpo_exc_action_check_exception_send"
    ∷ "mpo_exc_action_label_associate" ∷ "mpo_exc_action_label_populate"
    ∷ "mpo_exc_action_label_destroy" ∷ "mpo_exc_action_label_init" ∷ "mpo_exc_action_label_update"
    ∷ "mpo_vnode_check_trigger_resolve" ∷ "mpo_mount_check_mount_late"
    ∷ "mpo_mount_check_snapshot_mount" ∷ "mpo_vnode_notify_reclaim"
    ∷ "mpo_skywalk_flow_check_connect" ∷ "mpo_skywalk_flow_check_listen"
    ∷ "mpo_posixsem_check_create" ∷ "mpo_posixsem_check_open" ∷ "mpo_posixsem_check_post"
    ∷ "mpo_posixsem_check_unlink" ∷ "mpo_posixsem_check_wait" ∷ "mpo_posixsem_label_associate"
    ∷ "mpo_posixsem_label_destroy" ∷ "mpo_posixsem_label_init" ∷ "mpo_posixshm_check_create"
    ∷ "mpo_posixshm_check_mmap" ∷ "mpo_posixshm_check_open" ∷ "mpo_posixshm_check_stat"
    ∷ "mpo_posixshm_check_truncate" ∷ "mpo_posixshm_check_unlink" ∷ "mpo_posixshm_label_associate"
    ∷ "mpo_posixshm_label_destroy" ∷ "mpo_posixshm_label_init" ∷ "mpo_proc_check_debug"
    ∷ "mpo_proc_check_fork" ∷ "mpo_reserved61" ∷ "mpo_reserved62" ∷ "mpo_proc_check_getaudit"
    ∷ "mpo_proc_check_getauid" ∷ "mpo_reserved63" ∷ "mpo_proc_check_mprotect"
    ∷ "mpo_proc_check_sched" ∷ "mpo_proc_check_setaudit" ∷ "mpo_proc_check_setauid"
    ∷ "mpo_proc_check_iopolicysys" ∷ "mpo_proc_check_signal" ∷ "mpo_proc_check_wait"
    ∷ "mpo_proc_check_dump_core" ∷ "mpo_proc_check_remote_thread_create" ∷ "mpo_socket_check_accept"
    ∷ "mpo_socket_check_accepted" ∷ "mpo_socket_check_bind" ∷ "mpo_socket_check_connect"
    ∷ "mpo_socket_check_create" ∷ "mpo_reserved46" ∷ "mpo_reserved47" ∷ "mpo_reserved48"
    ∷ "mpo_socket_check_listen" ∷ "mpo_socket_check_receive" ∷ "mpo_socket_check_received"
    ∷ "mpo_reserved49" ∷ "mpo_socket_check_send" ∷ "mpo_socket_check_stat"
    ∷ "mpo_socket_check_setsockopt" ∷ "mpo_socket_check_getsockopt"
    ∷ "mpo_proc_check_get_movable_control_port" ∷ "mpo_proc_check_dyld_process_info_notify_register"
    ∷ "mpo_proc_check_setuid" ∷ "mpo_proc_check_seteuid" ∷ "mpo_proc_check_setreuid"
    ∷ "mpo_proc_check_setgid" ∷ "mpo_proc_check_setegid" ∷ "mpo_proc_check_setregid"
    ∷ "mpo_proc_check_settid" ∷ "mpo_proc_check_memorystatus_control" ∷ "mpo_reserved60"
    ∷ "mpo_thread_telemetry" ∷ "mpo_iokit_check_open_service" ∷ "mpo_system_check_acct"
    ∷ "mpo_system_check_audit" ∷ "mpo_system_check_auditctl" ∷ "mpo_system_check_auditon"
    ∷ "mpo_system_check_host_priv" ∷ "mpo_system_check_nfsd" ∷ "mpo_system_check_reboot"
    ∷ "mpo_system_check_settime" ∷ "mpo_system_check_swapoff" ∷ "mpo_system_check_swapon"
    ∷ "mpo_socket_check_ioctl" ∷ "mpo_sysvmsg_label_associate" ∷ "mpo_sysvmsg_label_destroy"
    ∷ "mpo_sysvmsg_label_init" ∷ "mpo_sysvmsg_label_recycle" ∷ "mpo_sysvmsq_check_enqueue"
    ∷ "mpo_sysvmsq_check_msgrcv" ∷ "mpo_sysvmsq_check_msgrmid" ∷ "mpo_sysvmsq_check_msqctl"
    ∷ "mpo_sysvmsq_check_msqget" ∷ "mpo_sysvmsq_check_msqrcv" ∷ "mpo_sysvmsq_check_msqsnd" ∷ []
