-- ===== src/Applier/Units.antt =====
-- internal/applier/units.go: what is installed on a machine, and the service manager's commands.
use fluxlite.Common.{Text, codes, [], ◌∷◌, ◌++◌, Result, ok, err}
use fluxlite.Model.{InitSystem, systemd, openrc, unknown}
use fluxlite.Planner.Config.{config_path}
use fluxlite.Applier.Remote.{shell_quote}

abbrev line_end : Text
line_end = 10 ∷ []

-- `systemdTemplateUnit`
unfoldable pub systemd_template_unit : Text
systemd_template_unit =
    codes "[Unit]"
    ++ line_end
    ++ codes "Description=fluxlite relay (%i)"
    ++ line_end
    ++ codes "Documentation=https://github.com/kukumi1/fluxlite"
    ++ line_end
    ++ codes "After=network-online.target"
    ++ line_end
    ++ codes "Wants=network-online.target"
    ++ line_end
    ++ line_end
    ++ codes "[Service]"
    ++ line_end
    ++ codes "Type=simple"
    ++ line_end
    ++ codes "ExecStart=/usr/local/bin/realm -c /etc/fluxlite/realm/%i.toml"
    ++ line_end
    ++ codes "Restart=always"
    ++ line_end
    ++ codes "RestartSec=3"
    ++ line_end
    ++ codes "LimitNOFILE=1048576"
    ++ line_end
    ++ line_end
    ++ codes "[Install]"
    ++ line_end
    ++ codes "WantedBy=multi-user.target"
    ++ line_end

-- `systemdUnitPath`
unfoldable pub systemd_unit_path : Text
systemd_unit_path = codes "/etc/systemd/system/fluxlite-relay@.service"

-- `openrcScript`
unfoldable pub openrc_script : Text → Text
openrc_script slug =
    codes "#!/sbin/openrc-run"
    ++ line_end
    ++ codes "# Managed by fluxlite. Manual edits are overwritten on apply."
    ++ line_end
    ++ line_end
    ++ codes "name=\"fluxlite-"
    ++ slug
    ++ codes "\""
    ++ line_end
    ++ codes "description=\"fluxlite relay for route "
    ++ slug
    ++ codes "\""
    ++ line_end
    ++ line_end
    ++ codes "supervisor=supervise-daemon"
    ++ line_end
    ++ codes "command=\"/usr/local/bin/realm\""
    ++ line_end
    ++ codes "command_args=\"-c "
    ++ config_path slug
    ++ codes "\""
    ++ line_end
    ++ codes "pidfile=\"/run/fluxlite-"
    ++ slug
    ++ codes ".pid\""
    ++ line_end
    ++ codes "respawn_delay=3"
    ++ line_end
    ++ codes "respawn_max=0"
    ++ line_end
    ++ line_end
    ++ codes "depend() {"
    ++ line_end
    ++ 9 ∷ codes "need net"
    ++ line_end
    ++ 9 ∷ codes "after firewall"
    ++ line_end
    ++ codes "}"
    ++ line_end

-- `openrcScriptPath`
unfoldable pub openrc_script_path : Text → Text
openrc_script_path slug = codes "/etc/init.d/fluxlite-" ++ slug

-- `serviceName`: the empty name of an init system that is not supported is `unsupported` below.
unfoldable pub service_name : InitSystem → Text → Text
service_name systemd slug = codes "fluxlite-relay@" ++ slug
service_name openrc slug = codes "fluxlite-" ++ slug
service_name unknown slug = []

-- `commands`
pub record Commands : Type 0 where
  pub reload_units : Text
  pub enable : Text
  pub restart : Text
  pub stop : Text
  pub disable : Text
  pub status : Text
  pub is_active : Text
  pub recent_log : Text

pub systemd_commands : Text → Commands
systemd_commands svc = record {
  reload_units = codes "systemctl daemon-reload";
  enable = codes "systemctl enable " ++ svc;
  restart = codes "systemctl restart " ++ svc;
  stop = codes "systemctl stop " ++ svc ++ codes " 2>/dev/null || true";
  disable = codes "systemctl disable " ++ svc ++ codes " 2>/dev/null || true";
  status = codes "systemctl status " ++ svc ++ codes " --no-pager 2>&1 | head -20";
  is_active = codes "systemctl is-active " ++ svc;
  recent_log = codes "journalctl -u " ++ svc ++ codes " -n 10 --no-pager 2>&1 | tail -10";
}

pub openrc_commands : Text → Commands
openrc_commands svc = record {
  reload_units = codes "true";
  enable = codes "rc-update add " ++ svc ++ codes " default";
  restart = codes "rc-service " ++ svc ++ codes " restart";
  stop = codes "rc-service " ++ svc ++ codes " stop 2>/dev/null || true";
  disable = codes "rc-update del " ++ svc ++ codes " default 2>/dev/null || true";
  status = codes "rc-service " ++ svc ++ codes " status 2>&1 | head -20";
  is_active =
      codes "rc-service " ++ svc ++ codes " status >/dev/null 2>&1 && echo active || echo inactive";
  recent_log =
      codes "tail -10 /var/log/messages 2>/dev/null | grep -i " ++ svc ++ codes " | tail -10";
}

abbrev unsupported : Text
unsupported = codes "unsupported init system"

-- `commandsFor`: the message of the error leaves out the name of the init system.
unfoldable pub commands_for : InitSystem → Text → Result Text Commands
unfolding systemd_commands openrc_commands
commands_for systemd slug = ok (systemd_commands (shell_quote (service_name systemd slug)))
commands_for openrc slug = ok (openrc_commands (shell_quote (service_name openrc slug)))
commands_for unknown slug = err unsupported
